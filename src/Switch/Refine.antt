-- ===== src/Switch/Refine.antt =====
-- Lab4/My Codes/switch.cc: `ProcessFrame` against a specification over the forwarding table as a
-- partial function. The specification is written from Lab4/Documents/lab4.md, sections 2.1 and 2.2.
use computer_network_labs.Prelude.{
  ◌≤◌, ◌≡◌, ◌≢◌, Bool, Option, none, some, ℤ, pos, negsuc, pos_part, minus_one, int_eq, int_eq_iff,
  ◌==◌, if◌then◌else◌, arith,
}
use computer_network_labs.Switch.Table.{Mac}
use computer_network_labs.Switch.{Switch, Frame, FrameTypes, learn, forward, process_frame}
use computer_network_labs.Switch.Invariant.{IsValid}
use computer_network_labs.Switch.View.{
  Route, view, has_room, tick, port_of, learned, view-age, view-learn, out_port-view,
}

-- What a frame asks of the switch: nothing, a second of ageing, or to be learned and forwarded.
pub data Command : Type 0 where
  ignore ageing : Command
  data_frame : Command

abbrev pub command : FrameTypes → ℤ → Frame → Command
command types p f =
    if int_eq p (pos 1)
    then if f.ether_type == types.control_type then ageing else ignore
    else if f.ether_type == types.data_type
    then data_frame
    else ignore

-- The routes after a frame.
abbrev pub next_routes : Command → (Mac → Option Route) → Bool → ℤ → Frame → Mac → Option Route
next_routes ignore m room p f q = m q
next_routes ageing m room p f q = tick (m q)
next_routes data_frame m room p f q = learned m room f.ether_src p q

-- The port by the document: all ports (0) without a route, none (-1) if the route leads back.
abbrev pub verdict : ℤ → Option Route → ℤ
verdict p none = pos 0
verdict p (some r) = if int_eq r.port p then minus_one else r.port

abbrev pub answer : Command → (Mac → Option Route) → ℤ → Frame → ℤ
answer ignore m p f = minus_one
answer ageing m p f = minus_one
answer data_frame m p f = verdict p (m f.ether_dest)

-- Hosts and other switches are behind ports 2 and up.
abbrev pub IsHostPort : ℤ → Type 0
IsHostPort p = 2 ≤ pos_part p

abbrev pub LeadsToHost : Option Route → Type 0
LeadsToHost none = Unit
LeadsToHost (some r) = IsHostPort r.port

-- Every route leads to such a port.
abbrev pub IsRouted : Switch → Type 0
IsRouted s = (q : Mac) → LeadsToHost (view s.switch_table q)

-- The ports that the simulator numbers, from 1.
abbrev pub IsPort : ℤ → Type 0
IsPort p = 1 ≤ pos_part p

-- After a frame every address has the route that the specification gives it.
pub process_frame-routes :
    (types : FrameTypes) (s : Switch) (p : ℤ) (f : Frame) (q : Mac)
    → IsValid s
    → view (process_frame types s p f).1.switch_table q
      ≡ next_routes (command types p f) (view s.switch_table) (has_room s.switch_table) p f q
unfolding process_frame
process_frame-routes types s p f q v =
    ground (arith, view-age q s.switch_table v.table, view-learn f.ether_src p s.switch_table q)

host_of_port : (p : ℤ) → IsPort p → p ≢ pos 1 → IsHostPort p
host_of_port (pos n) h ne = ground arith
host_of_port (negsuc n) h ne = absurd (omega arith)

tick-LeadsToHost : (o : Option Route) → LeadsToHost o → LeadsToHost (tick o)
tick-LeadsToHost none h = tt
tick-LeadsToHost (some r) h = ground arith

learned-LeadsToHost :
    (m : Mac → Option Route) (room : Bool) (src : Mac) (p : ℤ) (q : Mac)
    → IsHostPort p
    → LeadsToHost (m q)
    → LeadsToHost (learned m room src p q)
learned-LeadsToHost m room src p q h k = ground arith

next_routes-LeadsToHost :
    (types : FrameTypes) (m : Mac → Option Route) (room : Bool) (p : ℤ) (f : Frame) (q : Mac)
    → IsPort p
    → LeadsToHost (m q)
    → LeadsToHost (next_routes (command types p f) m room p f q)
next_routes-LeadsToHost types m room p f q port h = ground (
  arith,
  tick-LeadsToHost (m q) h,
  host_of_port p port,
  int_eq_iff p (pos 1),
  learned-LeadsToHost m room f.ether_src p q,
)

pub process_frame-IsRouted :
    (types : FrameTypes) (s : Switch) (p : ℤ) (f : Frame)
    → IsPort p
    → IsValid s
    → IsRouted s
    → IsRouted (process_frame types s p f).1
process_frame-IsRouted types s p f port v routed q = rw (process_frame-routes types s p f q v) (
    next_routes-LeadsToHost types (view s.switch_table) (has_room s.switch_table) p f q port
      (routed q))

forward-verdict : (p : ℤ) (o : Option Route) → LeadsToHost o → forward p (port_of o) ≡ verdict p o
unfolding forward
forward-verdict p none h = ground arith
forward-verdict p (some r) h = ground arith

-- On a port from 1 and with routes to host ports, the result of `ProcessFrame` is the one of the
-- specification: -1 for a control frame and for a frame of the wrong type; otherwise the route of
-- the destination after the source is learned decides between all ports, dropping, and one port.
pub process_frame-answer :
    (types : FrameTypes) (s : Switch) (p : ℤ) (f : Frame)
    → IsPort p
    → IsValid s
    → IsRouted s
    → (process_frame types s p f).0
      ≡ answer (command types p f) (view (process_frame types s p f).1.switch_table) p f
unfolding process_frame
process_frame-answer types s p f port v routed = ground (
  arith,
  forward-verdict p (view (learn f.ether_src p s.switch_table) f.ether_dest),
  process_frame-IsRouted types s p f port v routed f.ether_dest,
  out_port-view f.ether_dest (learn f.ether_src p s.switch_table),
)
