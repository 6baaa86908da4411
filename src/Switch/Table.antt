-- ===== src/Switch/Table.antt =====
-- Lab4/My Codes/switch.cc: `switchTableEntry` and the loops over `switchTable`.
use computer_network_labs.Prelude.{
  ℕ, Bool, true, false, ◌&&◌, List, [], ◌∷◌, ℤ, pos, minus_one, decrement, le_zero, same_bytes,
  ◌==◌, if◌then◌else◌, replicate,
}

-- `mac_addr_t`, an array of six bytes.
abbrev pub Mac : Type 0
Mac = List ℕ

pub record Entry : Type 0 where
  pub used : ℕ
  pub mac_add : Mac
  pub port : ℤ
  pub life_time : ℤ

-- What `InitSwitch` writes into each entry.
unfoldable pub cleared : Entry
cleared = record { used = 0; mac_add = replicate 6 0; port = minus_one; life_time = pos 0 }

-- The body of the loop over the table on a control frame: the decrement, then the test.
unfoldable pub age_entry : Entry → Entry
age_entry e =
    let older : Entry = if e.used == 1 then record e { life_time = decrement e.life_time } else e in
    if le_zero older.life_time then record older { used = 0 } else older

unfoldable pub age : List Entry → List Entry
unfolding age_entry
age [] = []
age (e ∷ es) = age_entry e ∷ age es

-- `used == 1 && memcmp(macAdd, mac, sizeof(mac_addr_t)) == 0`
unfoldable pub matches : Mac → Entry → Bool
unfolding same_bytes
matches mac e = e.used == 1 && same_bytes e.mac_add mac

-- The loop that renews every entry of the source address.
unfoldable pub refresh : Mac → ℤ → List Entry → List Entry
unfolding matches
refresh src in_port [] = []
refresh src in_port (e ∷ es) =
    (if matches src e then record e { life_time = pos 10; port = in_port } else e)
    ∷ refresh src in_port es

-- The flag `upgrade` after that loop.
unfoldable pub upgraded : Mac → List Entry → Bool
unfolding matches
upgraded src [] = false
upgraded src (e ∷ es) = if matches src e then true else upgraded src es

-- The loop that writes a new entry into the first free slot; a full table stays as it is.
unfoldable pub insert : Mac → ℤ → List Entry → List Entry
insert src in_port [] = []
insert src in_port (e ∷ es) =
    if e.used == 0
    then record { used = 1; mac_add = src; port = in_port; life_time = pos 10 } ∷ es
    else e ∷ insert src in_port es

-- The loop that finds the output port; 0 if no entry matches.
unfoldable pub out_port : Mac → List Entry → ℤ
unfolding matches
out_port dest [] = pos 0
out_port dest (e ∷ es) = if matches dest e then e.port else out_port dest es
