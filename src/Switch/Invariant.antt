-- ===== src/Switch/Invariant.antt =====
-- Lab4/My Codes/switch.cc: what holds of `switchTable` between two calls of `ProcessFrame`.
use computer_network_labs.Prelude.{
  ℕ, zero, suc, ◌+◌, ◌*◌, ◌≤◌, ◌≡◌, refl, ap, ◌≢◌, Bool, true, false, List, [], ◌∷◌, ℤ, pos,
  pos_part, same_bytes, same_bytes_iff, replicate, length, length-replicate, All, arith,
}
use computer_network_labs.Switch.Table.{
  Mac, Entry, cleared, age_entry, age, matches, refresh, upgraded, insert,
}
use computer_network_labs.Switch.{Switch, Frame, FrameTypes, init_switch, learn, process_frame, run}

-- An entry in use has 1 to 10 seconds left, a free one none.
pub record IsSlot (e : Entry) : Type 0 where
  pub nonneg : e.life_time ≡ pos (pos_part e.life_time)
  pub flag : e.used ≤ 1
  pub lasting : e.used ≤ pos_part e.life_time
  pub fading : pos_part e.life_time ≤ 10 * e.used

abbrev pub to_nat : Bool → ℕ
to_nat true = 1
to_nat false = 0

-- The number of entries in use for an address.
unfoldable pub count : Mac → List Entry → ℕ
count q [] = 0
count q (e ∷ es) = to_nat (matches q e) + count q es

pub record IsTable (t : List Entry) : Type 0 where
  pub slots : All IsSlot t
  pub unique : (q : Mac) → count q t ≤ 1

pub record IsValid (s : Switch) : Type 0 where
  pub size : length s.switch_table ≡ s.port_num + 1000
  pub table : IsTable s.switch_table

pub matches-used : (q : Mac) (e : Entry) → matches q e ≡ true → (e.used ≡ 1) × (e.mac_add ≡ q)
unfolding matches
matches-used q e h = ground (arith, same_bytes_iff e.mac_add q)

pub matches_congr :
    (q : Mac) (d e : Entry) → d.used ≡ e.used → d.mac_add ≡ e.mac_add → matches q d ≡ matches q e
unfolding matches
matches_congr q d e u m = rw (u, m) refl

-- Two addresses never match one entry.
pub matches_other : (p q : Mac) (e : Entry) → p ≢ q → matches p e ≡ true → matches q e ≡ false
unfolding matches
matches_other p q e ne h = ground (arith, same_bytes_iff e.mac_add p, same_bytes_iff e.mac_add q)

age_entry-IsSlot : (e : Entry) → IsSlot e → IsSlot (age_entry e)
unfolding age_entry
age_entry-IsSlot e v = ground arith

age-slots : (t : List Entry) → All IsSlot t → All IsSlot (age t)
unfolding age
age-slots [] h = tt
age-slots (e ∷ es) h = (age_entry-IsSlot e h.0, age-slots es h.1)

age_entry-matches-le :
    (q : Mac) (e : Entry) → to_nat (matches q (age_entry e)) ≤ to_nat (matches q e)
unfolding age_entry matches
age_entry-matches-le q e = ground arith

pub count-age-le : (q : Mac) (t : List Entry) → count q (age t) ≤ count q t
unfolding count age
count-age-le q [] = omega arith
count-age-le q (e ∷ es) = omega (arith, age_entry-matches-le q e, count-age-le q es)

refresh-slots : (src : Mac) (p : ℤ) (t : List Entry) → All IsSlot t → All IsSlot (refresh src p t)
unfolding refresh
refresh-slots src p [] h = tt
refresh-slots src p (e ∷ es) h = (ground (arith, matches-used src e), refresh-slots src p es h.1)

pub count-refresh : (q src : Mac) (p : ℤ) (t : List Entry) → count q (refresh src p t) ≡ count q t
unfolding count refresh
count-refresh q src p [] = refl
count-refresh q src p (e ∷ es) = ground (
  arith,
  count-refresh q src p es,
  matches_congr q (record e { life_time = pos 10; port = p }) e refl refl,
)

insert-slots : (src : Mac) (p : ℤ) (t : List Entry) → All IsSlot t → All IsSlot (insert src p t)
unfolding insert
insert-slots src p [] h = tt
insert-slots src p (e ∷ es) h = ground (arith, insert-slots src p es h.1)

pub not-upgraded-count : (src : Mac) (t : List Entry) → upgraded src t ≡ false → count src t ≡ 0
unfolding upgraded count
not-upgraded-count src [] h = refl
not-upgraded-count src (e ∷ es) h = ground (arith, not-upgraded-count src es)

pub matches-free : (q : Mac) (e : Entry) → e.used ≡ 0 → matches q e ≡ false
unfolding matches
matches-free q e h = ground arith

abbrev pub fresh_entry : Mac → ℤ → Entry
fresh_entry src p = record { used = 1; mac_add = src; port = p; life_time = pos 10 }

pub matches-fresh : (q src : Mac) (p : ℤ) → matches q (fresh_entry src p) ≡ same_bytes src q
unfolding matches
matches-fresh q src p = ground arith

count-insert-le :
    (q src : Mac) (p : ℤ) (t : List Entry)
    → count q (insert src p t) ≤ count q t + to_nat (same_bytes src q)
unfolding count insert
count-insert-le q src p [] = omega arith
count-insert-le q src p (e ∷ es) =
    ground (arith, count-insert-le q src p es, matches-fresh q src p, matches-free q e)

pub length-age : (t : List Entry) → length (age t) ≡ length t
unfolding age
length-age [] = refl
length-age (e ∷ es) = ap suc (length-age es)

length-refresh : (src : Mac) (p : ℤ) (t : List Entry) → length (refresh src p t) ≡ length t
unfolding refresh
length-refresh src p [] = refl
length-refresh src p (e ∷ es) = ap suc (length-refresh src p es)

length-insert : (src : Mac) (p : ℤ) (t : List Entry) → length (insert src p t) ≡ length t
unfolding insert
length-insert src p [] = refl
length-insert src p (e ∷ es) = ground (arith, length-insert src p es)

pub length-learn : (src : Mac) (p : ℤ) (t : List Entry) → length (learn src p t) ≡ length t
unfolding learn
length-learn src p t = ground (arith, length-refresh src p t, length-insert src p (refresh src p t))

pub learn-IsTable : (src : Mac) (p : ℤ) (t : List Entry) → IsTable t → IsTable (learn src p t)
unfolding learn
learn-IsTable src p t v = record {
  slots = ground (
    arith,
    refresh-slots src p t v.slots,
    insert-slots src p (refresh src p t) (refresh-slots src p t v.slots),
  );
  unique = λ q. ground (
    arith,
    v.unique q,
    count-refresh q src p t,
    count-insert-le q src p (refresh src p t),
    not-upgraded-count src t,
    same_bytes_iff src q,
  );
}

pub age-IsTable : (t : List Entry) → IsTable t → IsTable (age t)
age-IsTable t v = record {
  slots = age-slots t v.slots;
  unique = λ q. omega (arith, v.unique q, count-age-le q t);
}

-- A frame keeps the table at its size, its entries well formed, and at most one entry in use for
-- each address, whatever the port and the frame.
pub process_frame-IsValid :
    (types : FrameTypes) (s : Switch) (in_port : ℤ) (f : Frame)
    → IsValid s
    → IsValid (process_frame types s in_port f).1
unfolding process_frame
process_frame-IsValid types s in_port f v = ground (
  arith,
  age-IsTable s.switch_table v.table,
  learn-IsTable f.ether_src in_port s.switch_table v.table,
  length-age s.switch_table,
  length-learn f.ether_src in_port s.switch_table,
)

replicate-slots : (n : ℕ) → All IsSlot (replicate n cleared)
unfolding cleared
replicate-slots zero = tt
replicate-slots (suc n) = (ground arith, replicate-slots n)

count-replicate : (n : ℕ) (q : Mac) → count q (replicate n cleared) ≡ 0
unfolding count cleared
count-replicate zero q = refl
count-replicate (suc n) q = ground (arith, count-replicate n q, matches-free q cleared refl)

-- The table that `InitSwitch` builds is valid, for every number of ports.
pub init_switch-IsValid : (n : ℕ) → IsValid (init_switch n)
unfolding init_switch
init_switch-IsValid n = record {
  size = length-replicate (n + 1000) cleared;
  table = record {
    slots = replicate-slots (n + 1000);
    unique = λ q. omega (arith, count-replicate (n + 1000) q);
  };
}

pub run-IsValid :
    (types : FrameTypes) (s : Switch) (fs : List (ℤ × Frame)) → IsValid s → IsValid (run types s fs)
unfolding run
run-IsValid types s [] v = v
run-IsValid types s ((p, f) ∷ fs) v =
    run-IsValid types (process_frame types s p f).1 fs (process_frame-IsValid types s p f v)
