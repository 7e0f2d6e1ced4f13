-- ===== src/ChatLock/Index.antt =====
-- The index of the keystore: since the keystore cannot list its items, a wipe walks the index.
use nuco_messenger.ChatLock.Custody.{delete_items}
use nuco_messenger.ChatLock.State.{ChatLocks, Items, delete_item, get_item, set_item}
use nuco_messenger.Prelude.{
  Bool-cases, List, String, [], arith, eq_iff, eq_refl, false, if_rule, inl, inr, refl, some,
  str_eq, true, ◌∙◌, ◌∷◌, ◌≡◌,
}
use nuco_messenger.Prelude.Keys.{add, delete, has, has-append_last, has-delete_ne}
use nuco_messenger.Prelude.Rows.{Every}

abbrev pub IsIn : List String → String × String → Type 0
IsIn index e = has e.0 index ≡ true

-- Every released key and every item of the keystore belongs to a chat of the index.
pub record IsIndexed (s : ChatLocks) : Type 0 where
  pub released_in : Every (IsIn s.index) s.released
  pub codes_in : Every (IsIn s.index) s.codes
  pub bios_in : Every (IsIn s.index) s.bios

pub has-add_self : (c : String) (index : List String) → has c (add c index) ≡ true
unfolding add
has-add_self c index = ground (arith, has-append_last c c index, eq_refl c)

has-add_keeps :
    (c d : String) (index : List String) → has d index ≡ true → has d (add c index) ≡ true
unfolding add
has-add_keeps c d index h = ground (arith, has-append_last c d index)

pub add-Every :
    (c : String) (index : List String) (items : Items)
    → Every (IsIn index) items
    → Every (IsIn (add c index)) items
add-Every c index [] h = tt
add-Every c index (e ∷ es) h = (has-add_keeps c e.0 index h.0, add-Every c index es h.1)

pub delete_item-Every :
    (index : List String) (c : String) (items : Items)
    → Every (IsIn index) items
    → Every (IsIn index) (delete_item c items)
unfolding delete_item
delete_item-Every index c [] h = tt
delete_item-Every index c ((d, v) ∷ es) h =
    if_rule (Every (IsIn index)) (str_eq d c) (delete_item-Every index c es h.1)
      (h.0, delete_item-Every index c es h.1)

pub set_item-Every :
    (index : List String) (c v : String) (items : Items)
    → has c index ≡ true
    → Every (IsIn index) items
    → Every (IsIn index) (set_item c v items)
unfolding set_item
set_item-Every index c v items n h = (n, delete_item-Every index c items h)

pub get_item-IsIn :
    (index : List String) (c v : String) (items : Items)
    → Every (IsIn index) items
    → get_item c items ≡ some v
    → has c index ≡ true
unfolding get_item
get_item-IsIn index c v [] h e = cc
get_item-IsIn index c v ((d, w) ∷ es) h e = ground (arith, eq_iff d c, get_item-IsIn index c v es)

apart_sym : (d c : String) → str_eq d c ≡ false → str_eq c d ≡ false
apart_sym d c e = ground (arith, eq_iff c d, eq_iff d c)

pub unindex-Every :
    (index : List String) (c : String) (items : Items)
    → Every (IsIn index) items
    → Every (IsIn (delete c index)) (delete_item c items)
unfolding delete_item
unindex-Every index c [] h = tt
unindex-Every index c ((d, v) ∷ es) h = elim (Bool-cases (str_eq d c)) [
  | inl e ↦ rw e (unindex-Every index c es h.1)
  | inr e ↦ rw e (has-delete_ne c d index (apart_sym d c e) ∙ h.0, unindex-Every index c es h.1)
]

drop_head-Every :
    (c : String) (cs : List String) (items : Items)
    → Every (IsIn (c ∷ cs)) items
    → Every (IsIn cs) (delete_item c items)
unfolding delete_item has
drop_head-Every c cs [] h = tt
drop_head-Every c cs ((d, v) ∷ es) h = elim (Bool-cases (str_eq d c)) [
  | inl e ↦ rw e (drop_head-Every c cs es h.1)
  | inr e ↦ rw e (ground (arith, h.0, apart_sym d c e), drop_head-Every c cs es h.1)
]

pub delete_items-none :
    (index : List String) (items : Items) → Every (IsIn index) items → delete_items index items ≡ []
unfolding delete_items has
delete_items-none [] [] h = refl
delete_items-none [] (e ∷ es) h = cc (h.0)
delete_items-none (c ∷ cs) items h =
    delete_items-none cs (delete_item c items) (drop_head-Every c cs items h)
