-- ===== src/Switch.antt =====
-- Lab4/My Codes/switch.cc and switch.h: the class `mySwitch`. `types.h` is only in the archive
-- Lab4/Initial Codes/lab4-switch.zip: the two frame types are parameters, and a frame is the three
-- fields of its `ether_header_t` that the code reads. The messages that the code prints are left
-- out.
pub mod Table
pub mod Invariant
pub mod View
pub mod Refine
pub mod Ageing
pub mod Histories
pub mod Destinations
mod Examples
use computer_network_labs.Prelude.{
  ℕ, ◌+◌, Bool, not, List, [], ◌∷◌, ℤ, pos, minus_one, int_eq, ◌==◌, if◌then◌else◌, replicate,
}
use Table.{Mac, Entry, cleared, age, refresh, upgraded, insert, out_port}

pub record Frame : Type 0 where
  pub ether_dest : Mac
  pub ether_src : Mac
  pub ether_type : ℕ

pub record FrameTypes : Type 0 where
  pub data_type : ℕ
  pub control_type : ℕ

pub record Switch : Type 0 where
  pub port_num : ℕ
  pub switch_table : List Entry

-- `InitSwitch`; the caller guarantees a positive number of ports.
unfoldable pub init_switch : ℕ → Switch
unfolding cleared
init_switch num_ports = record {
  port_num = num_ports;
  switch_table = replicate (num_ports + 1000) cleared;
}

-- The two loops that record where the source address was seen.
unfoldable pub learn : Mac → ℤ → List Entry → List Entry
unfolding refresh upgraded insert
learn src in_port t =
    let t' = refresh src in_port t in if upgraded src t then t' else insert src in_port t'

-- The result of `ProcessFrame` once `outPort` is known.
unfoldable pub forward : ℤ → ℤ → ℤ
forward in_port out =
    if int_eq out (pos 0) then pos 0 else if int_eq out in_port then minus_one else out

-- `ProcessFrame`: the result and the switch after the call.
unfoldable pub process_frame : FrameTypes → Switch → ℤ → Frame → ℤ × Switch
unfolding age learn forward out_port
process_frame types s in_port header =
    if int_eq in_port (pos 1)
    then if not (header.ether_type == types.control_type)
      then (minus_one, s)
      else (minus_one, record s { switch_table = age s.switch_table })
    else if not (header.ether_type == types.data_type)
    then (minus_one, s)
    else let t = learn header.ether_src in_port s.switch_table in
      (forward in_port (out_port header.ether_dest t), record s { switch_table = t })

-- Calls of `ProcessFrame` in order, each with its port; the results are dropped.
unfoldable pub run : FrameTypes → Switch → List (ℤ × Frame) → Switch
run types s [] = s
run types s ((in_port, f) ∷ fs) = run types (process_frame types s in_port f).1 fs
