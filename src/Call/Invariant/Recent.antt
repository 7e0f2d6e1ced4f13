-- ===== src/Call/Invariant/Recent.antt =====
-- The set of recently ended calls of src/calls/controller.ts.
use nuco_messenger.Call.Invariant.{IsBounded}
use nuco_messenger.Call.State.{Controller, recent_call_ids_max}
use nuco_messenger.Call.Teardown.{remember, trim}
use nuco_messenger.Prelude.{
  List, String, [], arith, eq_refl, false, length, length-append, suc, true, ◌++◌, ◌∷◌, ◌≡◌, ◌≤◌,
}
use nuco_messenger.Prelude.Keys.{
  IsDistinct, add, append_last-IsDistinct, delete, delete-IsDistinct, has, has-append_last,
  has-delete_ne, has-delete_self, length-delete-le,
}

abbrev moved : String → List String → List String
moved id ks = delete id ks ++ id ∷ []

add-moved : (id : String) (ks : List String) → add id (delete id ks) ≡ moved id ks
unfolding add
add-moved id ks = rw (has-delete_self id ks)

trim-IsDistinct : (ks : List String) → IsDistinct ks → IsDistinct (trim ks)
unfolding trim
trim-IsDistinct [] h = tt
trim-IsDistinct (k ∷ ks) h = ground (arith, delete-IsDistinct k (k ∷ ks) h)

length-trim :
    (ks : List String)
    → length ks ≤ suc recent_call_ids_max
    → length (trim ks) ≤ recent_call_ids_max
unfolding trim delete
length-trim [] h = omega arith
length-trim (k ∷ ks) h = ground (arith, length-delete-le k ks, eq_refl k)

pub remember-IsBounded : (id : String) {c : Controller} → IsBounded c → IsBounded (remember id c)
unfolding remember
remember-IsBounded id {c} r = rw (add-moved id c.recently_ended) (record {
  distinct = trim-IsDistinct (moved id c.recently_ended) (
      append_last-IsDistinct id (delete id c.recently_ended) (has-delete_self id c.recently_ended)
        (delete-IsDistinct id c.recently_ended r.distinct));
  bounded = length-trim (moved id c.recently_ended) (
      omega (
        arith,
        length-append (delete id c.recently_ended) (id ∷ []),
        length-delete-le id c.recently_ended,
        r.bounded,
      ));
})

has-trim_last :
    (id : String) (ks : List String) → has id ks ≡ false → has id (trim (ks ++ id ∷ [])) ≡ true
unfolding trim has delete
has-trim_last id [] n = ground (arith, eq_refl id)
has-trim_last id (k ∷ ks) n =
    ground
      (arith, eq_refl k, eq_refl id, has-append_last id id ks, has-delete_ne k id (ks ++ id ∷ []))

-- What is remembered is found.
pub has-remember : (id : String) (c : Controller) → has id (remember id c).recently_ended ≡ true
unfolding remember
has-remember id c =
    rw (add-moved id c.recently_ended)
      (has-trim_last id (delete id c.recently_ended) (has-delete_self id c.recently_ended))
