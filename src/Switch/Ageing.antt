-- ===== src/Switch/Ageing.antt =====
-- Lab4/My Codes/switch.cc: histories of frames in which one address does not speak.
use computer_network_labs.Prelude.{
  ℕ, ◌+◌, ◌-◌, ◌≤◌, ◌≡◌, refl, Bool, false, List, [], ◌∷◌, Option, none, some, ℤ, same_bytes, leb,
  if◌then◌else◌, All, arith,
}
use computer_network_labs.Switch.Table.{Mac}
use computer_network_labs.Switch.{Switch, Frame, FrameTypes, process_frame, run}
use computer_network_labs.Switch.Invariant.{IsValid, process_frame-IsValid}
use computer_network_labs.Switch.View.{Route, view, tick}
use computer_network_labs.Switch.Refine.{Command, ageing, data_frame, command, process_frame-routes}

-- Whether a frame teaches the switch the address `a`.
abbrev pub speaks : FrameTypes → Mac → ℤ × Frame → Bool
speaks types a (p, f) = elim (command types p f) [
  | data_frame ↦ same_bytes f.ether_src a
  | _ ↦ false
]

-- The seconds that pass on a frame.
abbrev pub second : Command → ℕ
second ageing = 1
second _ = 0

-- The seconds that pass in a history.
unfoldable pub seconds : FrameTypes → List (ℤ × Frame) → ℕ
seconds types [] = 0
seconds types ((p, f) ∷ fs) = second (command types p f) + seconds types fs

-- A route after `n` seconds.
abbrev pub after : ℕ → Option Route → Option Route
after n none = none
after n (some r) = if leb r.seconds n then none else some (record r { seconds = r.seconds - n })

-- A route that has at least a second left, as every route of a valid table.
abbrev pub IsAlive : Option Route → Type 0
IsAlive none = Unit
IsAlive (some r) = 1 ≤ r.seconds

after-zero : (o : Option Route) → IsAlive o → o ≡ after 0 o
after-zero none h = refl
after-zero (some r) h = ground arith

after-tick : (n : ℕ) (o : Option Route) → after n (tick o) ≡ after (1 + n) o
after-tick n none = refl
after-tick n (some r) = ground arith

tick-IsAlive : (o : Option Route) → IsAlive o → IsAlive (tick o)
tick-IsAlive none h = tt
tick-IsAlive (some r) h = ground arith

-- A frame that does not teach `a` changes its route by the seconds that pass.
silent_step :
    (types : FrameTypes) (s : Switch) (p : ℤ) (f : Frame) (a : Mac)
    → IsValid s
    → speaks types a (p, f) ≡ false
    → view (process_frame types s p f).1.switch_table a ≡ elim (command types p f) [
      | ageing ↦ tick (view s.switch_table a)
      | _ ↦ view s.switch_table a
    ]
silent_step types s p f a v quiet = ground (arith, process_frame-routes types s p f a v)

-- The route of an address that does not speak in a history is the old one, less the seconds that
-- pass in the history, and is gone when these use it up.
pub run-view_silent :
    (types : FrameTypes) (s : Switch) (fs : List (ℤ × Frame)) (a : Mac)
    → IsValid s
    → IsAlive (view s.switch_table a)
    → All (λ c. speaks types a c ≡ false) fs
    → view (run types s fs).switch_table a ≡ after (seconds types fs) (view s.switch_table a)
unfolding run seconds
run-view_silent types s [] a v alive quiet = after-zero (view s.switch_table a) alive
run-view_silent types s ((p, f) ∷ fs) a v alive quiet = ground (
  arith,
  silent_step types s p f a v quiet.0,
  tick-IsAlive (view s.switch_table a) alive,
  after-tick (seconds types fs) (view s.switch_table a),
  run-view_silent types (process_frame types s p f).1 fs a (process_frame-IsValid types s p f v),
  quiet.1,
)
