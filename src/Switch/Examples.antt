-- ===== src/Switch/Examples.antt =====
-- Lab4/My Codes/switch.cc: the theorems at concrete frames, and runs of the switch.
use computer_network_labs.Prelude.{
  ◌≡◌, refl, ◌≢◌, List, [], ◌∷◌, ℤ, pos, minus_one, arith, replicate, same_bytes,
}
use computer_network_labs.Switch.Table.{Mac}
use computer_network_labs.Switch.{Switch, Frame, FrameTypes, init_switch, process_frame, run}
use computer_network_labs.Switch.Invariant.{IsValid, process_frame-IsValid, init_switch-IsValid}
use computer_network_labs.Switch.View.{view}
use computer_network_labs.Switch.Refine.{
  command, answer, next_routes, process_frame-routes, process_frame-answer,
}
use computer_network_labs.Switch.View.{has_room}
use computer_network_labs.Switch.Ageing.{seconds, after, run-view_silent}
use computer_network_labs.Switch.Destinations.{GoesTo, process_frame-GoesTo}
use computer_network_labs.Switch.Histories.{init_switch-IsRouted, forwards_recent, floods_stale}

-- The frame types of Lab4/Documents/lab4.md.
abbrev types : FrameTypes
types = record { data_type = 0; control_type = 1 }

abbrev alice : Mac
alice = 0xde ∷ 0xad ∷ 0xbe ∷ 0xef ∷ 0 ∷ 1 ∷ []

abbrev bob : Mac
bob = 0xde ∷ 0xad ∷ 0xbe ∷ 0xef ∷ 0 ∷ 2 ∷ []

abbrev from_alice : Frame
from_alice = record { ether_dest = bob; ether_src = alice; ether_type = 0 }

abbrev from_bob : Frame
from_bob = record { ether_dest = alice; ether_src = bob; ether_type = 0 }

abbrev ageing_frame : Frame
ageing_frame = record { ether_dest = []; ether_src = []; ether_type = 1 }

bob-ne-alice : bob ≢ alice
bob-ne-alice = ground arith

-- A switch with two entries, the first in use.
abbrev small : Switch
small = record {
  port_num = 4;
  switch_table =
      record { used = 1; mac_add = bob; port = pos 3; life_time = pos 1 }
      ∷ record { used = 0; mac_add = []; port = minus_one; life_time = pos 0 }
      ∷ [];
}

learns_and_forwards : (process_frame types small (pos 2) from_alice).0 ≡ pos 3
unfolding process_frame
learns_and_forwards = refl

floods_after_ageing :
    (process_frame types (run types small ((pos 1, ageing_frame) ∷ [])) (pos 2) from_alice).0
    ≡ pos 0
unfolding process_frame run
floods_after_ageing = refl

process_frame-IsValid_example : IsValid (process_frame types (init_switch 4) (pos 2) from_alice).1
process_frame-IsValid_example =
    process_frame-IsValid types (init_switch 4) (pos 2) from_alice (init_switch-IsValid 4)

process_frame-routes_example :
    view (process_frame types (init_switch 4) (pos 2) from_alice).1.switch_table alice
    ≡ next_routes
        (command types (pos 2) from_alice)
        (view (init_switch 4).switch_table)
        (has_room (init_switch 4).switch_table)
        (pos 2)
        from_alice
        alice
process_frame-routes_example =
    process_frame-routes types (init_switch 4) (pos 2) from_alice alice (init_switch-IsValid 4)

process_frame-answer_example :
    (process_frame types (init_switch 4) (pos 2) from_alice).0
    ≡ answer
        (command types (pos 2) from_alice)
        (view (process_frame types (init_switch 4) (pos 2) from_alice).1.switch_table)
        (pos 2)
        from_alice
process_frame-answer_example =
    process_frame-answer types (init_switch 4) (pos 2) from_alice (omega arith)
      (init_switch-IsValid 4) (init_switch-IsRouted 4)

run-view_silent_example :
    view (run types (init_switch 4) ((pos 1, ageing_frame) ∷ [])).switch_table alice
    ≡ after 1 (view (init_switch 4).switch_table alice)
unfolding view init_switch seconds
run-view_silent_example =
    run-view_silent types (init_switch 4) ((pos 1, ageing_frame) ∷ []) alice (init_switch-IsValid 4)
      tt (refl, tt)

-- Alice speaks on port 2; then a frame to her comes in on port 3.
process_frame-GoesTo_example :
    GoesTo types
      ((pos 2, from_alice) ∷ [])
      (pos 3)
      from_bob
      (process_frame types
        (run types (init_switch 4) ((pos 2, from_alice) ∷ []))
        (pos 3)
        from_bob).0
process_frame-GoesTo_example =
    process_frame-GoesTo types 4 ((pos 2, from_alice) ∷ []) (pos 3) from_bob (omega arith)
      (omega arith)

abbrev heard : List (ℤ × Frame)
heard = (pos 1, ageing_frame) ∷ (pos 3, from_bob) ∷ []

abbrev stale : List (ℤ × Frame)
stale = replicate 10 (pos 1, ageing_frame)

forwards_recent_example :
    (process_frame types
      (run types (process_frame types (init_switch 4) (pos 2) from_alice).1 heard)
      (pos 3)
      from_bob).0
    ≡ pos 2
unfolding init_switch has_room seconds same_bytes view
forwards_recent_example =
    forwards_recent types (init_switch 4) (init_switch-IsValid 4) (pos 2) from_alice alice refl refl
      refl heard (refl, (refl, tt)) (pos 3) from_bob (omega arith) (omega arith) (omega arith)
      (init_switch-IsRouted 4) refl bob-ne-alice refl (omega arith)

floods_stale_example :
    (process_frame types
      (run types (process_frame types (init_switch 4) (pos 2) from_alice).1 stale)
      (pos 3)
      from_bob).0
    ≡ pos 0
unfolding init_switch has_room seconds same_bytes view
floods_stale_example =
    floods_stale types (init_switch 4) (init_switch-IsValid 4) (pos 2) from_alice alice refl refl
      refl stale (ground arith) (pos 3) from_bob (omega arith) (omega arith) (omega arith)
      (init_switch-IsRouted 4) refl bob-ne-alice refl (omega arith)
