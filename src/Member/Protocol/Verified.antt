-- ===== src/Member/Protocol/Verified.antt =====
-- What a state exchange that verifyProtocol lets pass says of the versions.
use mori.Prelude.{◌≤◌, ◌≡◌, refl, sym, subst}
use mori.Prelude.{Bool, true, false, not, ◌&&◌, Option, none, some}
use mori.Prelude.{List, [], ◌∷◌, arith, if◌then◌else◌}
use mori.Prelude.{Bool-contra, on_if}
use mori.Prelude.{All, All-imp}
use mori.Member.Types.{Versions, parse_vsn, NodeState, dead_or_left}
use mori.Member.Types.{PushNodeState, Memberlist}
use mathlib.Core.Option.{some-injective}
use mori.Member.Alive.{is_alive}
use mori.Member.Lifecycle.{states_of}
use mori.Member.Protocol.{
  Range, full_range, narrow, versions_of, binds, gone, scan_remote, scan_local, within,
  check_remote, check_local, verify_protocol,
}

-- The versions that `v` speaks are in the ranges that `w` understands.
abbrev pub Understands : Versions → Versions → Type 0
Understands w v = (w.pmin ≤ v.pcur) × (v.pcur ≤ w.pmax) × (w.dmin ≤ v.dcur) × (v.dcur ≤ w.dmax)

abbrev Fits : Versions → Range → Type 0
Fits v r =
    (r.max_pmin ≤ v.pcur) × (v.pcur ≤ r.min_pmax) × (r.max_dmin ≤ v.dcur) × (v.dcur ≤ r.min_dmax)

unset : (b : Bool) → not b ≡ true → b ≡ true → ⊥
unset true p q = cc p
unset false p q = cc q

well_formed :
    {A C : Type 0} (o : Option A) {rest : Option C} {r : C}
    → elim o as (λ _. Option C) [ none ↦ none | some v ↦ rest ] ≡ some r
    → rest ≡ some r
well_formed none e = absurd (cc e)
well_formed (some v) e = e

narrow-Fits : (v w : Versions) (r : Range) → Fits v (narrow w r) → Fits v r × Understands w v
unfolding narrow
narrow-Fits v w r (a, b, c, d) = (
  (omega (arith, a), omega (arith, b), omega (arith, c), omega (arith, d)),
  (omega (arith, a), omega (arith, b), omega (arith, c), omega (arith, d)),
)

within-Fits : (v : Versions) (r : Range) → within v r ≡ true → Fits v r
unfolding within
within-Fits v r h = (ground (arith, h), ground (arith, h), ground (arith, h), ground (arith, h))

-- The alive nodes of a state exchange that have versions set, and those of the table.
abbrev pub RemoteUnderstand : List PushNodeState → Versions → Type 0
RemoteUnderstand ns v = All (λ n. binds n ≡ true → Understands (versions_of n.vsn) v) ns

abbrev pub LocalUnderstand : List NodeState → Versions → Type 0
LocalUnderstand ss v = All (λ s. is_alive s.state ≡ true → Understands s.vsn v) ss

scan_local-Fits :
    (v : Versions) (ss : List NodeState) (r : Range)
    → Fits v (scan_local ss r)
    → Fits v r × LocalUnderstand ss v
unfolding scan_local
scan_local-Fits v [] r f = (f, tt)
scan_local-Fits v (s ∷ ss) r f =
    let (g, rest) = scan_local-Fits v ss (if not (is_alive s.state) then r else narrow s.vsn r) f in
    let (here, own) =
      on_if (λ r1. Fits v r1 → Fits v r × (is_alive s.state ≡ true → Understands s.vsn v))
        (not (is_alive s.state)) (λ t h. (h, λ alive. absurd (unset (is_alive s.state) t alive)))
        (λ t h. let (fit, u) = narrow-Fits v s.vsn r h in (fit, λ alive. u)) g in
    (here, (own, rest))

scan_remote-Fits :
    (v : Versions) (ns : List PushNodeState) (r r' : Range)
    → scan_remote ns r ≡ some r'
    → Fits v r'
    → Fits v r × RemoteUnderstand ns v
unfolding scan_remote
scan_remote-Fits v [] r r' e f = (subst (Fits v) (sym (some-injective r r' e)) f, tt)
scan_remote-Fits v (n ∷ ns) r r' e f =
    let next = if binds n then narrow (versions_of n.vsn) r else r in
    let (g, rest) = scan_remote-Fits v ns next r' (well_formed (parse_vsn n.vsn) e) f in
    let (here, own) =
      on_if (λ r1. Fits v r1 → Fits v r × (binds n ≡ true → Understands (versions_of n.vsn) v))
        (binds n) (λ t h. let (fit, u) = narrow-Fits v (versions_of n.vsn) r h in (fit, λ b. u))
        (λ t h. (h, λ b. absurd (Bool-contra b t))) g in
    (here, (own, rest))

check_remote-within :
    (r : Range) (ns : List PushNodeState)
    → check_remote ns r ≡ true
    → All (λ n. gone n ≡ false → Fits (versions_of n.vsn) r) ns
unfolding check_remote
check_remote-within r [] h = tt
check_remote-within r (n ∷ ns) h = (
  λ stays. within-Fits (versions_of n.vsn) r (ground (arith, h, stays)),
  check_remote-within r ns (ground (arith, h)),
)

check_local-within :
    (r : Range) (ss : List NodeState)
    → check_local ss r ≡ true
    → All (λ s. dead_or_left s.state ≡ false → Fits s.vsn r) ss
unfolding check_local
check_local-within r [] h = tt
check_local-within r (s ∷ ss) h = (
  λ stays. within-Fits s.vsn r (ground (arith, h, stays)),
  check_local-within r ss (ground (arith, h)),
)

-- A node's versions are understood by the alive nodes of both sides.
abbrev pub Understood : List PushNodeState → List NodeState → Versions → Type 0
Understood remote locals v = RemoteUnderstand remote v × LocalUnderstand locals v

module _ (remote : List PushNodeState) (m : Memberlist) where
  verified-Fits :
      (r : Range)
      → scan_remote remote full_range ≡ some r
      → (v : Versions) → Fits v (scan_local (states_of m.nodes m.node_map) r)
      → Understood remote (states_of m.nodes m.node_map) v
  verified-Fits r e v f =
      let (g, local) = scan_local-Fits v (states_of m.nodes m.node_map) r f in
      let (h, far) = scan_remote-Fits v remote full_range r e g in (far, local)

  -- Where verifyProtocol returns nil, every node of either side that is not dead or left speaks
  -- versions, of the protocol and of the delegate, that every alive node of either side
  -- understands; a remote node without versions binds nobody, and counts as speaking version 0.
  pub verify_protocol-Understood :
      verify_protocol remote m ≡ true
      → All
          (λ n.
            gone n ≡ false → Understood remote (states_of m.nodes m.node_map) (versions_of n.vsn))
          remote
        × All
            (λ s.
              dead_or_left s.state ≡ false → Understood remote (states_of m.nodes m.node_map) s.vsn)
            (states_of m.nodes m.node_map)
  unfolding verify_protocol
  verify_protocol-Understood h = checked (scan_remote remote full_range) refl h
    where
      locals : List NodeState
      locals = states_of m.nodes m.node_map

      checked :
          (o : Option Range)
          → scan_remote remote full_range ≡ o
          → elim o as (λ _. Bool) [
            | none ↦ false
            | some r ↦
                check_remote remote (scan_local locals r)
                && check_local locals (scan_local locals r)
          ]
            ≡ true
          → All (λ n. gone n ≡ false → Understood remote locals (versions_of n.vsn)) remote
            × All (λ s. dead_or_left s.state ≡ false → Understood remote locals s.vsn) locals
      checked none e c = absurd (cc c)
      checked (some r) e c =
          let range = scan_local locals r in
          (
            All-imp (λ n. gone n ≡ false → Fits (versions_of n.vsn) range)
                (λ n. gone n ≡ false → Understood remote locals (versions_of n.vsn)) remote
                (λ n f stays. verified-Fits r e (versions_of n.vsn) (f stays))
                (check_remote-within range remote (ground (arith, c))),
            All-imp (λ s. dead_or_left s.state ≡ false → Fits s.vsn range)
                (λ s. dead_or_left s.state ≡ false → Understood remote locals s.vsn) locals
                (λ s f stays. verified-Fits r e s.vsn (f stays))
                (check_local-within range locals (ground (arith, c))),
          )
