-- ===== src/Db/Contacts.antt =====
-- src/db/repos/contacts.ts: the contacts table and its queries. A nullable column is an Option.
use nuco_messenger.Prelude.{
  Bool, List, Option, String, [], if◌then◌else◌, is_some, map, none, not, some, str_eq, true, ℕ,
  ◌&&◌, ◌++◌, ◌∷◌,
}
use nuco_messenger.Prelude.Rows.{discard, exists_row, first_row, modify}

-- `ContactStatus`.
pub data ContactStatus : Type 0 where
  connected verified : ContactStatus

-- A row of the table; the source's `Contact`.
pub record ContactRow : Type 0 where
  pub id : String
  pub handle : String
  pub display_name : String
  pub identity_pubkey : String
  pub fingerprint : Option String
  pub safety_number : Option String
  pub status : ContactStatus
  pub verified_at : Option ℕ
  pub local_confirmed_at : Option ℕ
  pub peer_confirmed_at : Option ℕ
  pub card_spk_pub : Option String
  pub card_kyber_pub : Option String
  pub is_blocked : Bool
  pub is_muted : Bool
  pub name_sync_pending : Bool
  pub created_at : ℕ

abbrev pub Contacts : Type 0
Contacts = List ContactRow

-- `isMutuallyVerified`.
abbrev pub is_mutually_verified : ContactRow → Bool
is_mutually_verified c = is_some c.local_confirmed_at && is_some c.peer_confirmed_at

abbrev pub is_contact : String → ContactRow → Bool
is_contact key c = str_eq c.id key

abbrev pub has_handle : String → ContactRow → Bool
has_handle h c = str_eq c.handle h

module _ (before : String → String → Bool) where
  -- The place of a row by `COLLATE NOCASE`, which `before` decides.
  unfoldable pub insert_named : ContactRow → Contacts → Contacts
  insert_named c [] = c ∷ []
  insert_named c (d ∷ ds) =
      if before d.display_name c.display_name then d ∷ insert_named c ds else c ∷ d ∷ ds

  unfoldable pub list_contacts : Contacts → Contacts
  unfolding insert_named
  list_contacts [] = []
  list_contacts (c ∷ cs) = insert_named c (list_contacts cs)

unfoldable pub get_contact : String → Contacts → Option ContactRow
get_contact key t = first_row (is_contact key) t

unfoldable pub get_contact_by_handle : String → Contacts → Option ContactRow
get_contact_by_handle h t = first_row (has_handle h) t

-- The columns of the conflict clause; the flag of the name broadcast and the creation time stay.
abbrev pub merge_contact : ContactRow → ContactRow → ContactRow
merge_contact c old = record c {
  id = old.id;
  name_sync_pending = old.name_sync_pending;
  created_at = old.created_at;
}

unfoldable pub upsert_contact : ContactRow → Contacts → Contacts
upsert_contact c t =
    if exists_row (is_contact c.id) t
    then modify (is_contact c.id) (merge_contact c) t
    else t ++ c ∷ []

abbrev pub unverified : ContactRow → ContactRow
unverified c = record c {
  safety_number = none;
  status = ContactStatus.connected;
  verified_at = none;
  local_confirmed_at = none;
  peer_confirmed_at = none;
  card_spk_pub = none;
  card_kyber_pub = none;
}

unfoldable pub reset_verification : String → Contacts → Contacts
reset_verification key t = modify (is_contact key) unverified t

unfoldable pub reset_all_verification : Contacts → Contacts
reset_all_verification t = map unverified t

-- The CASE of the two updates: the other side has confirmed.
abbrev promoted : Option ℕ → ContactStatus → ContactStatus
promoted none old = old
promoted (some confirmed) old = ContactStatus.verified

abbrev promoted_at : Option ℕ → ℕ → Option ℕ → Option ℕ
promoted_at none at old = old
promoted_at (some confirmed) at old = some at

abbrev pub confirm_local : String → ℕ → ContactRow → ContactRow
confirm_local number at c = record c {
  local_confirmed_at = some at;
  safety_number = some number;
  status = promoted c.peer_confirmed_at c.status;
  verified_at = promoted_at c.peer_confirmed_at at c.verified_at;
}

unfoldable pub set_local_confirmed : String → String → ℕ → Contacts → Contacts
set_local_confirmed key number at t = modify (is_contact key) (confirm_local number at) t

abbrev pub confirm_peer : ℕ → ContactRow → ContactRow
confirm_peer at c = record c {
  peer_confirmed_at = some at;
  status = promoted c.local_confirmed_at c.status;
  verified_at = promoted_at c.local_confirmed_at at c.verified_at;
}

unfoldable pub set_peer_confirmed : String → ℕ → Contacts → Contacts
set_peer_confirmed key at t = modify (is_contact key) (confirm_peer at) t

unfoldable pub set_blocked : String → Bool → Contacts → Contacts
set_blocked key on t = modify (is_contact key) (λ c. record c { is_blocked = on }) t

unfoldable pub set_contact_muted : String → Bool → Contacts → Contacts
set_contact_muted key on t = modify (is_contact key) (λ c. record c { is_muted = on }) t

unfoldable pub set_contact_name : String → String → Contacts → Contacts
set_contact_name key name t = modify (is_contact key) (λ c. record c { display_name = name }) t

unfoldable pub set_name_sync_pending : String → Bool → Contacts → Contacts
set_name_sync_pending key on t =
    modify (is_contact key) (λ c. record c { name_sync_pending = on }) t

unfoldable pub mark_all_name_sync_pending : Contacts → Contacts
mark_all_name_sync_pending t =
    modify (λ c. is_mutually_verified c && not c.is_blocked)
      (λ c. record c { name_sync_pending = true }) t

unfoldable pub delete_contact : String → Contacts → Contacts
delete_contact key t = discard (is_contact key) t
