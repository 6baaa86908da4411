-- ===== src/Switch/View.antt =====
-- Lab4/My Codes/switch.cc: the forwarding table as a partial function from addresses to routes,
-- and what each loop over `switchTable` does to it.
use computer_network_labs.Prelude.{
  ℕ, ◌-◌, ◌≡◌, refl, ◌≢◌, Bool, true, false, ◌||◌, List, [], ◌∷◌, Option, none, some, ℤ, pos,
  pos_part, same_bytes, same_bytes_iff, ◌==◌, leb, if◌then◌else◌, arith,
}
use computer_network_labs.Switch.Table.{
  Mac, Entry, age_entry, age, matches, refresh, upgraded, insert, out_port,
}
use computer_network_labs.Switch.{learn}
use computer_network_labs.Switch.Invariant.{
  IsSlot, count, IsTable, matches_congr, matches_other, matches-free, matches-fresh, count-age-le,
}

-- The port behind which an address was seen, and the seconds until this is forgotten.
pub record Route : Type 0 where
  pub port : ℤ
  pub seconds : ℕ

abbrev pub route_of : Entry → Route
route_of e = record { port = e.port; seconds = pos_part e.life_time }

-- The route of the first entry in use for an address.
unfoldable pub view : List Entry → Mac → Option Route
unfolding matches
view [] q = none
view (e ∷ es) q = if matches q e then some (route_of e) else view es q

-- Whether an entry is free.
unfoldable pub has_room : List Entry → Bool
has_room [] = false
has_room (e ∷ es) = e.used == 0 || has_room es

abbrev pub is_some {ℓ} : {A : Type ℓ} → Option A → Bool
is_some none = false
is_some (some a) = true

-- One second passes: the route is forgotten after its last second.
abbrev pub tick : Option Route → Option Route
tick none = none
tick (some r) = if leb r.seconds 1 then none else some (record r { seconds = r.seconds - 1 })

-- The output port by the view: 0, which stands for all ports, without a route.
abbrev pub port_of : Option Route → ℤ
port_of none = pos 0
port_of (some r) = r.port

pub view-none_of_count : (q : Mac) (t : List Entry) → count q t ≡ 0 → view t q ≡ none
unfolding view count
view-none_of_count q [] h = refl
view-none_of_count q (e ∷ es) h = ground (arith, view-none_of_count q es)

pub upgraded-view : (q : Mac) (t : List Entry) → upgraded q t ≡ is_some (view t q)
unfolding view upgraded
upgraded-view q [] = refl
upgraded-view q (e ∷ es) = ground (arith, upgraded-view q es)

pub out_port-view : (q : Mac) (t : List Entry) → out_port q t ≡ port_of (view t q)
unfolding view out_port
out_port-view q [] = refl
out_port-view q (e ∷ es) = ground (arith, out_port-view q es)

tick-entry :
    (q : Mac) (e : Entry)
    → IsSlot e
    → matches q e ≡ true
    → (if matches q (age_entry e) then some (route_of (age_entry e)) else none)
      ≡ tick (some (route_of e))
unfolding matches age_entry
tick-entry q e v h = ground arith

tick-free : (q : Mac) (e : Entry) → matches q e ≡ false → matches q (age_entry e) ≡ false
unfolding matches age_entry
tick-free q e h = ground arith

-- A control frame lets one second pass for every address.
pub view-age : (q : Mac) (t : List Entry) → IsTable t → view (age t) q ≡ tick (view t q)
unfolding view age count
view-age q [] v = refl
view-age q (e ∷ es) v = ground (
  arith,
  v.unique q,
  v.slots.0,
  tick-entry q e v.slots.0,
  tick-free q e,
  view-age q es (record { slots = v.slots.1; unique = λ p. omega (arith, v.unique p) }),
  count-age-le q es,
  view-none_of_count q (age es),
)

view-refresh_self :
    (src : Mac) (p : ℤ) (t : List Entry)
    → upgraded src t ≡ true
    → view (refresh src p t) src ≡ some (record { port = p; seconds = 10 })
unfolding view refresh upgraded
view-refresh_self src p [] h = cc
view-refresh_self src p (e ∷ es) h = ground (
  arith,
  view-refresh_self src p es,
  matches_congr src (record e { life_time = pos 10; port = p }) e refl refl,
)

refresh_absent : (src : Mac) (p : ℤ) (t : List Entry) → upgraded src t ≡ false → refresh src p t ≡ t
unfolding refresh upgraded
refresh_absent src p [] h = refl
refresh_absent src p (e ∷ es) h = ground (arith, refresh_absent src p es)

view-refresh_other :
    (src q : Mac) (p : ℤ) (t : List Entry) → src ≢ q → view (refresh src p t) q ≡ view t q
unfolding view refresh
view-refresh_other src q p [] ne = refl
view-refresh_other src q p (e ∷ es) ne = ground (
  arith,
  view-refresh_other src q p es ne,
  matches_other src q e ne,
  matches_congr q (record e { life_time = pos 10; port = p }) e refl refl,
)

view-insert_self :
    (src : Mac) (p : ℤ) (t : List Entry)
    → upgraded src t ≡ false
    → view (insert src p t) src
      ≡ (if has_room t then some (record { port = p; seconds = 10 }) else none)
unfolding view insert upgraded has_room
view-insert_self src p [] h = refl
view-insert_self src p (e ∷ es) h =
    ground (arith, view-insert_self src p es, matches-fresh src src p, same_bytes_iff src src)

view-insert_other :
    (src q : Mac) (p : ℤ) (t : List Entry) → src ≢ q → view (insert src p t) q ≡ view t q
unfolding view insert
view-insert_other src q p [] ne = refl
view-insert_other src q p (e ∷ es) ne = ground (
  arith,
  view-insert_other src q p es ne,
  matches-fresh q src p,
  matches-free q e,
  same_bytes_iff src q,
)

-- Learning sets the route of the source if it is known or the table has room, and no other route.
abbrev pub learned : (Mac → Option Route) → Bool → Mac → ℤ → Mac → Option Route
learned m room src p q =
    if same_bytes src q
    then if is_some (m src) || room then some (record { port = p; seconds = 10 }) else none
    else m q

pub view-learn :
    (src : Mac) (p : ℤ) (t : List Entry) (q : Mac)
    → view (learn src p t) q ≡ learned (view t) (has_room t) src p q
unfolding learn
view-learn src p t q = ground (
  arith,
  same_bytes_iff src q,
  upgraded-view src t,
  view-refresh_self src p t,
  refresh_absent src p t,
  view-refresh_other src q p t,
  view-insert_self src p t,
  view-insert_other src q p t,
)
