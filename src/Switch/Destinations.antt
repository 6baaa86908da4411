-- ===== src/Switch/Destinations.antt =====
-- Lab4/My Codes/switch.cc: on which ports a switch may send, after any history of frames.
use computer_network_labs.Prelude.{
  ℕ, ◌≤◌, ◌≡◌, refl, ◌≢◌, ◌⊎◌, inl, inr, Bool, List, [], ◌∷◌, Option, none, some, ℤ, pos, pos_part,
  minus_one, int_eq_iff, same_bytes, same_bytes_iff, int_eq, subst, Bool-cases, ◌+◌, All, arith,
}
use computer_network_labs.Switch.Table.{Mac}
use computer_network_labs.Switch.{Switch, Frame, FrameTypes, init_switch, process_frame, run}
use computer_network_labs.Switch.Invariant.{
  IsValid, process_frame-IsValid, init_switch-IsValid, run-IsValid,
}
use computer_network_labs.Switch.View.{Route, view, tick, learned, has_room}
use computer_network_labs.Switch.Refine.{
  Command, ignore, ageing, data_frame, command, next_routes, verdict, answer, IsPort, LeadsToHost,
  process_frame-routes, process_frame-IsRouted, process_frame-answer,
}
use computer_network_labs.Switch.Histories.{
  OnPorts, run-IsRouted, init_switch-IsRouted, view-cleared,
}

-- The frame of the call is one that teaches the switch that `a` is behind `port`.
abbrev pub Teaches : FrameTypes → Mac → ℤ → ℤ × Frame → Type 0
Teaches types a port (p, f) = (command types p f ≡ data_frame) × (f.ether_src ≡ a) × (port ≡ p)

-- Some frame of the history does.
abbrev pub Taught : FrameTypes → Mac → ℤ → List (ℤ × Frame) → Type 0
Taught types a port [] = ⊥
Taught types a port (c ∷ fs) = Teaches types a port c ⊎ Taught types a port fs

-- Where a frame from port `p` may go: nowhere (-1), to every port but `p` (0), or to one port, not
-- `p`, of a host or another switch, on which a frame of its destination has come in.
abbrev pub GoesTo : FrameTypes → List (ℤ × Frame) → ℤ → Frame → ℤ → Type 0
GoesTo types fs p f out =
    (out ≡ minus_one)
    ⊎ (out ≡ pos 0)
    ⊎ ((2 ≤ pos_part out) × (out ≢ p) × Taught types f.ether_dest out fs)

-- The routes of the switch have the property `P`.
abbrev Routed : (Mac → ℤ → Type 0) → Switch → Type 0
Routed P s = (q : Mac) (r : Route) → view s.switch_table q ≡ some r → P q r.port

tick-from :
    (P : ℤ → Type 0) (o : Option Route) (r : Route)
    → ((r' : Route) → o ≡ some r' → P r'.port)
    → tick o ≡ some r
    → P r.port
tick-from P none r old e = cc
tick-from P (some r') r old e = subst P (ground arith) (old r' refl)

learned-from :
    (P : ℤ → Type 0) (m : Mac → Option Route) (room : Bool) (src : Mac) (p : ℤ) (q : Mac)
    (r : Route)
    → ((r' : Route) → m q ≡ some r' → P r'.port)
    → (src ≡ q → P p)
    → learned m room src p q ≡ some r
    → P r.port
learned-from P m room src p q r old new e = elim (Bool-cases (same_bytes src q)) [
  | inr other ↦ old r (rw other at e)
  | inl same ↦
      let port : p ≡ r.port = ground arith in subst P port (new ((same_bytes_iff src q).0 same))
]

next_routes-from :
    (P : ℤ → Type 0) (c : Command) (m : Mac → Option Route) (room : Bool) (p : ℤ) (f : Frame)
    (q : Mac) (r : Route)
    → ((r' : Route) → m q ≡ some r' → P r'.port)
    → (c ≡ data_frame → f.ether_src ≡ q → P p)
    → next_routes c m room p f q ≡ some r
    → P r.port
next_routes-from P ignore m room p f q r old new e = old r e
next_routes-from P ageing m room p f q r old new e = tick-from P (m q) r old e
next_routes-from P data_frame m room p f q r old new e =
    learned-from P m room f.ether_src p q r old (new refl) e

-- The property `P` holds of what a frame teaches.
abbrev Allows : FrameTypes → (Mac → ℤ → Type 0) → ℤ × Frame → Type 0
Allows types P (p, f) = command types p f ≡ data_frame → P f.ether_src p

process_frame-Routed :
    (types : FrameTypes) (P : Mac → ℤ → Type 0) (s : Switch) (p : ℤ) (f : Frame)
    → Allows types P (p, f)
    → IsValid s
    → Routed P s
    → Routed P (process_frame types s p f).1
process_frame-Routed types P s p f allows v routed q r e =
    next_routes-from (P q) (command types p f) (view s.switch_table) (has_room s.switch_table) p f q
      r (routed q) (λ c same. subst (λ x. P x p) same (allows c))
      (rw (process_frame-routes types s p f q v) at e)

run-Routed :
    (types : FrameTypes) (P : Mac → ℤ → Type 0) (s : Switch) (fs : List (ℤ × Frame))
    → All (Allows types P) fs
    → IsValid s
    → Routed P s
    → Routed P (run types s fs)
unfolding run
run-Routed types P s [] allows v routed = routed
run-Routed types P s ((p, f) ∷ fs) allows v routed =
    run-Routed types P (process_frame types s p f).1 fs allows.1
      (process_frame-IsValid types s p f v) (process_frame-Routed types P s p f allows.0 v routed)

init_switch-Routed : (P : Mac → ℤ → Type 0) (n : ℕ) → Routed P (init_switch n)
unfolding init_switch
init_switch-Routed P n q r e = let none_there = view-cleared (n + 1000) q in cc

-- A history teaches what its frames teach.
Taught-Allows :
    (types : FrameTypes) (fs all : List (ℤ × Frame))
    → ((a : Mac) (port : ℤ) → Taught types a port fs → Taught types a port all)
    → All (Allows types (λ a port. Taught types a port all)) fs
Taught-Allows types [] all within = tt
Taught-Allows types ((p, f) ∷ fs) all within = (
  λ c. within f.ether_src p (inl (c, refl, refl)),
  Taught-Allows types fs all (λ a port t. within a port (inr t)),
)

-- The routes after a history come from it.
run-Taught :
    (types : FrameTypes) (n : ℕ) (fs : List (ℤ × Frame))
    → Routed (λ a port. Taught types a port fs) (run types (init_switch n) fs)
run-Taught types n fs =
    run-Routed types (λ a port. Taught types a port fs) (init_switch n) fs
      (Taught-Allows types fs fs (λ a port t. t)) (init_switch-IsValid n)
      (init_switch-Routed (λ a port. Taught types a port fs) n)

verdict-GoesTo :
    (types : FrameTypes) (fs : List (ℤ × Frame)) (p : ℤ) (f : Frame) (o : Option Route)
    → LeadsToHost o
    → ((r : Route) → o ≡ some r → (r.port ≡ p) ⊎ Taught types f.ether_dest r.port fs)
    → GoesTo types fs p f (verdict p o)
verdict-GoesTo types fs p f none host from = inr (inl refl)
verdict-GoesTo types fs p f (some r) host from = elim (Bool-cases (int_eq r.port p)) [
  | inl back ↦ rw back (inl refl)
  | inr ahead ↦
      let away : r.port ≢ p = ground (arith, int_eq_iff r.port p) in
      rw ahead (elim (from r refl) [
        | inl same ↦ absurd (away same)
        | inr taught ↦ inr (inr (host, away, taught))
      ])
]

answer-GoesTo :
    (types : FrameTypes) (fs : List (ℤ × Frame)) (c : Command) (m : Mac → Option Route) (p : ℤ)
    (f : Frame)
    → LeadsToHost (m f.ether_dest)
    → ((r : Route) → m f.ether_dest ≡ some r → (r.port ≡ p) ⊎ Taught types f.ether_dest r.port fs)
    → GoesTo types fs p f (answer c m p f)
answer-GoesTo types fs ignore m p f host from = inl refl
answer-GoesTo types fs ageing m p f host from = inl refl
answer-GoesTo types fs data_frame m p f host from =
    verdict-GoesTo types fs p f (m f.ether_dest) host from

-- After any history of frames on ports from 1, the result of a new switch for a frame from port `p`
-- is -1 (nowhere), 0 (which stands for every port but `p`), or one port from 2 on. In the last case
-- the port is not `p`, and a data frame whose source is the destination of this one came in on it
-- in the history.
pub process_frame-GoesTo :
    (types : FrameTypes) (n : ℕ) (fs : List (ℤ × Frame)) (p : ℤ) (f : Frame)
    → OnPorts fs
    → IsPort p
    → GoesTo types fs p f (process_frame types (run types (init_switch n) fs) p f).0
process_frame-GoesTo types n fs p f ports port =
    let s = run types (init_switch n) fs in
    let valid = run-IsValid types (init_switch n) fs (init_switch-IsValid n) in
    let routed =
      run-IsRouted types (init_switch n) fs ports (init_switch-IsValid n)
        (init_switch-IsRouted n) in
    let origin =
      process_frame-Routed types (λ a x. (x ≡ p) ⊎ Taught types a x fs) s p f (λ _. inl refl) valid
        (λ q r e. inr (run-Taught types n fs q r e)) in
    rw (process_frame-answer types s p f port valid routed) (
      answer-GoesTo types fs (command types p f) (view (process_frame types s p f).1.switch_table) p
        f (process_frame-IsRouted types s p f port valid routed f.ether_dest) (origin f.ether_dest))
