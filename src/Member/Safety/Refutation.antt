-- ===== src/Member/Safety/Refutation.antt =====
-- `refute`: the incarnation that answers an accusation, and what is announced.
use mori.Prelude.{ℕ, ◌+◌, ◌-◌, ◌%◌, ◌^◌, ◌<◌, max, ◌≡◌, sym, ap, ◌∙◌}
use mori.Prelude.{some}
use mori.Prelude.{[], ◌∷◌, ◌++◌, arith, ◌==◌, if◌then◌else◌}
use mori.Prelude.{Bytes, same_refl}
use mori.Prelude.Int.{pos}
use mori.Prelude.Assoc.{lookup, insert, lookup-insert}
use mori.Awareness.{apply_delta}
use mori.Member.Types.{NodeState}
use mori.Member.Types.{AliveMsg, alive_msg, no_notify, Config, Memberlist}
use mori.Member.Nodes.{refute_incarnation, refute}

-- The answer is one more than the accusation and than the last incarnation, in uint32. After the
-- counter itself has wrapped only the accusation counts.
abbrev pub answer : ℕ → ℕ → ℕ
answer accused current =
    if current == 2 ^ 32 - 1 then (accused + 1) % 2 ^ 32 else (max accused current + 1) % 2 ^ 32

pub refute_incarnation-answer :
    (accused : ℕ) (m : Memberlist)
    → accused < 2 ^ 32
    → m.incarnation < 2 ^ 32
    → ((refute_incarnation accused m).1 ≡ answer accused m.incarnation)
      × ((refute_incarnation accused m).0.incarnation ≡ answer accused m.incarnation)
unfolding refute_incarnation
refute_incarnation-answer accused m a b = ground arith

-- The alive message that a refutation sends.
abbrev pub announcement : NodeState → ℕ → AliveMsg
announcement me inc = record {
  incarnation = inc;
  node = me.name;
  addr = me.addr;
  port = me.port;
  meta = me.meta;
  vsn = me.vsn.pmin ∷ me.vsn.pmax ∷ me.vsn.pcur ∷ me.vsn.dmin ∷ me.vsn.dmax ∷ me.vsn.dcur ∷ [];
}

module _ (cfg : Config) (key : Bytes) (me : NodeState) (accused : ℕ) (m : Memberlist) where
  refute-facts :
      let m' = refute cfg key me accused m in
      let (m1, inc) = refute_incarnation accused m in
      (m'.incarnation ≡ m1.incarnation)
      × (m'.node_map ≡ insert key (record me { incarnation = inc }) m.node_map)
      × (m'.awareness ≡ apply_delta (pos 1) m.awareness)
      × (m'.broadcasts
          ≡ m.broadcasts
            ++ (record {
              node = cfg.ip_string me.addr;
              msg = alive_msg (announcement me inc);
              notify = no_notify;
            }
                ∷ []))
  unfolding refute
  refute-facts = ground arith

  -- Below the largest uint32, a refutation takes an incarnation above both the accusation and the
  -- last one, records it for the local node and as the counter, lowers the health by one step, and
  -- broadcasts an alive message with it.
  pub refute_beats :
      accused < 2 ^ 32 - 1
      → m.incarnation < 2 ^ 32 - 1
      → let m' = refute cfg key me accused m in
        (accused < m'.incarnation)
        × (m.incarnation < m'.incarnation)
        × (lookup key m'.node_map ≡ some (record me { incarnation = m'.incarnation }))
        × (m'.awareness ≡ apply_delta (pos 1) m.awareness)
        × (m'.broadcasts
            ≡ m.broadcasts
              ++ (record {
                node = cfg.ip_string me.addr;
                msg = alive_msg (announcement me m'.incarnation);
                notify = no_notify;
              }
                  ∷ []))
  refute_beats a b =
      let f = refute-facts in
      let ans = refute_incarnation-answer accused m (omega arith) (omega arith) in
      let same_inc : (refute_incarnation accused m).1 ≡ (refute cfg key me accused m).incarnation =
        ans.0 ∙ sym (f.0 ∙ ans.1) in
      (
        ground (arith, f, ans),
        ground (arith, f, ans),
        rw f.1 (
            rw
              (
                lookup-insert key key (record me { incarnation = (refute_incarnation accused m).1 })
                    m.node_map,
                same_refl key,
              )
              (ap (λ (n : ℕ). some (record me { incarnation = n })) same_inc)),
        f.2,
        f.3
            ∙ ap
                (λ (n : ℕ).
                  m.broadcasts
                  ++ (record {
                    node = cfg.ip_string me.addr;
                    msg = alive_msg (announcement me n);
                    notify = no_notify;
                  }
                      ∷ []))
                same_inc,
      )

  -- An accusation at the largest uint32 is answered with incarnation 0, which is recorded for the
  -- local node; the counter before is a uint32.
  pub refute_wraps :
      accused ≡ 2 ^ 32 - 1
      → m.incarnation < 2 ^ 32
      → let m' = refute cfg key me accused m in
        (m'.incarnation ≡ 0) × (lookup key m'.node_map ≡ some (record me { incarnation = 0 }))
  refute_wraps a b =
      let f = refute-facts in
      let ans = refute_incarnation-answer accused m (omega arith) b in
      let zero_inc : (refute_incarnation accused m).1 ≡ 0 = ground (arith, ans) in
      (
        ground (arith, f, ans),
        rw
            (
              f.1,
              lookup-insert key key (record me { incarnation = (refute_incarnation accused m).1 })
                  m.node_map,
              same_refl key,
            )
            (ap (λ (n : ℕ). some (record me { incarnation = n })) zero_inc),
      )
