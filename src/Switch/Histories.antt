-- ===== src/Switch/Histories.antt =====
-- Lab4/My Codes/switch.cc: what a switch does for its hosts over a history of frames.
use computer_network_labs.Prelude.{
  ℕ, ◌+◌, ◌≤◌, ◌<◌, ◌≡◌, refl, ◌∙◌, ap, ◌≢◌, true, false, ◌||◌, List, [], ◌∷◌, none, some, ℤ, pos,
  minus_one, int_eq, same_bytes_iff, if◌then◌else◌, All, arith, replicate, zero, suc,
}
use computer_network_labs.Switch.Table.{Mac, Entry, cleared}
use computer_network_labs.Switch.{Switch, Frame, FrameTypes, init_switch, process_frame, run}
use computer_network_labs.Switch.Invariant.{
  IsSlot, IsValid, process_frame-IsValid, run-IsValid, matches-used, matches-free,
}
use computer_network_labs.Switch.View.{view, has_room, is_some}
use computer_network_labs.Switch.Refine.{
  data_frame, command, verdict, IsPort, IsRouted, process_frame-routes, process_frame-IsRouted,
  process_frame-answer,
}
use computer_network_labs.Switch.Ageing.{speaks, seconds, IsAlive, after, run-view_silent}

slots-IsAlive : (t : List Entry) (a : Mac) → All IsSlot t → IsAlive (view t a)
unfolding view
slots-IsAlive [] a h = tt
slots-IsAlive (e ∷ es) a h = ground (arith, slots-IsAlive es a h.1, matches-used a e, h.0)

-- The ports of a history are numbered from 1.
abbrev pub OnPorts : List (ℤ × Frame) → Type 0
OnPorts = All (λ c. IsPort c.0)

pub run-IsRouted :
    (types : FrameTypes) (s : Switch) (fs : List (ℤ × Frame))
    → OnPorts fs
    → IsValid s
    → IsRouted s
    → IsRouted (run types s fs)
unfolding run
run-IsRouted types s [] ports v r = r
run-IsRouted types s ((p, f) ∷ fs) ports v r =
    run-IsRouted types (process_frame types s p f).1 fs ports.1
      (process_frame-IsValid types s p f v) (process_frame-IsRouted types s p f ports.0 v r)

pub view-cleared : (n : ℕ) (q : Mac) → view (replicate n cleared) q ≡ none
unfolding view cleared
view-cleared zero q = refl
view-cleared (suc n) q = ground (arith, view-cleared n q, matches-free q cleared refl)

pub init_switch-IsRouted : (n : ℕ) → IsRouted (init_switch n)
unfolding init_switch
init_switch-IsRouted n q = rw (view-cleared (n + 1000) q) tt

-- A switch that has just learned `a`, on port `p`, and then has seen a history without `a`.
module _ (types : FrameTypes) (s : Switch) (v : IsValid s) (p : ℤ) (f : Frame) (a : Mac)
    (known : (is_some (view s.switch_table a) || has_room s.switch_table) ≡ true)
    (source : f.ether_src ≡ a) (taught : command types p f ≡ data_frame) (fs : List (ℤ × Frame))
    (quiet : All (λ c. speaks types a c ≡ false) fs) where
  abbrev taught_switch : Switch
  taught_switch = (process_frame types s p f).1

  taught-view : view taught_switch.switch_table a ≡ some (record { port = p; seconds = 10 })
  taught-view = ground (
    arith,
    process_frame-routes types s p f a v,
    known,
    source,
    taught,
    same_bytes_iff f.ether_src a,
  )

  later-view :
      view (run types taught_switch fs).switch_table a
      ≡ after (seconds types fs) (some (record { port = p; seconds = 10 }))
  later-view =
      let valid = process_frame-IsValid types s p f v in
      run-view_silent types taught_switch fs a valid
        (slots-IsAlive taught_switch.switch_table a valid.table.slots) quiet
      ∙ ap (after (seconds types fs)) taught-view

  module _ (q : ℤ) (g : Frame) (port_q : IsPort q) (port_p : IsPort p) (ports : OnPorts fs)
      (routed : IsRouted s) (data_g : command types q g ≡ data_frame) (other : g.ether_src ≢ a)
      (dest : g.ether_dest ≡ a) where
    later-verdict :
        (process_frame types (run types taught_switch fs) q g).0
        ≡ verdict q (after (seconds types fs) (some (record { port = p; seconds = 10 })))
    later-verdict =
        let t = run types taught_switch fs in
        let valid = process_frame-IsValid types s p f v in
        ground (
          arith,
          process_frame-answer types t q g port_q (run-IsValid types taught_switch fs valid) (
              run-IsRouted types taught_switch fs ports valid
                (process_frame-IsRouted types s p f port_p v routed)),
          process_frame-routes types t q g a (run-IsValid types taught_switch fs valid),
          same_bytes_iff g.ether_src a,
          later-view,
        )

    -- Let a valid switch learn the address `a` from a data frame on port `p`, having an entry for
    -- `a` or a free one, and let a history follow in which `a` does not speak and fewer than 10
    -- ageing frames come. Then a data frame from another address to `a` goes out on `p`, or is
    -- dropped if it came in on `p`.
    pub forwards_recent :
        seconds types fs < 10
        → (process_frame types (run types taught_switch fs) q g).0
          ≡ (if int_eq p q then minus_one else p)
    forwards_recent recent = ground (arith, later-verdict)

    -- In the same situation, once 10 or more ageing frames came, such a frame goes to all ports.
    pub floods_stale :
        10 ≤ seconds types fs → (process_frame types (run types taught_switch fs) q g).0 ≡ pos 0
    floods_stale stale = ground (arith, later-verdict)
