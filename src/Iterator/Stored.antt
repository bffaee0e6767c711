-- ===== src/Iterator/Stored.antt =====
-- What `rtcom_el_add_event` of src/eventlogger.c has put in the tables, as the SELECT of a query joins
-- it: the row of an event, the names of its service and its type, and the row of its contact.
use rtcom_eventlogger.Common.{
  ℕ, ◌==◌, ◌≡◌, refl, sym, ◌∙◌, ap, subst, inl, inr, Bool, true, false, ◌&&◌, Option, none, some,
  List, [], ◌∷◌, map, String, same_opt, same_opt_iff, keep, Bool-cases, if◌then◌else◌,
}
use rtcom_eventlogger.Event.{Event, is_set, remote_uid}
use rtcom_eventlogger.Db.Exec.{feed}
use rtcom_eventlogger.Store.{RemoteRow, Tables}
use rtcom_eventlogger.Logger.{El, lookup_id, is_remote}
use rtcom_eventlogger.Logger.Add.{RemotesCtx, fetch_remote_data, no_remote, new_name, new_abook_uid}
use rtcom_eventlogger.Logger.Add.Refreshed.{refreshed, found_remote, RemotesAfter}
use rtcom_eventlogger.Iterator.{Joined, abook_of, uid_of, name_of}

abbrev pub first_of : {A : Type 0} → List A → Option A
first_of [] = none
first_of (x ∷ xs) = some x

-- The row of the event `i` as it is joined: JOIN Services, JOIN EventTypes, whose names and ids are
-- those that the object knows, and LEFT JOIN Remotes.
pub record IsJoined (el : El) (t : Tables) (i : ℕ) (j : Joined) : Type 0 where
  pub at_event : first_of (keep (λ e. e.id == i) t.events) ≡ some j.event
  pub of_service : lookup_id j.service el.services ≡ some j.event.service_id
  pub of_type : lookup_id j.event_type el.event_types ≡ some j.event.event_type_id
  pub of_remote :
      j.remote ≡ first_of (keep (is_remote j.event.remote_uid j.event.local_uid) t.remotes)

-- What Remotes has of the contact of an event after it was added, by the rows of the contact before:
-- the texts of the event for a new contact, and what the UPDATE statements make of the row otherwise.
abbrev pub contact_row : Event → RemotesCtx → List RemoteRow → Option String × Option String
contact_row ev ctx [] = (new_name ev, new_abook_uid ev)
contact_row ev ctx (r ∷ rs) =
    let r' = refreshed (new_abook_uid ev) (new_name ev) ctx r in (r'.remote_name, r'.abook_uid)

abbrev pub contact_after : Event → List RemoteRow → Option String × Option String
contact_after ev rs =
    contact_row ev (found_remote ev rs) (keep (is_remote ev.fld_remote_uid ev.fld_local_uid) rs)

keep-refreshed :
    (u l abook name : Option String) (ctx : RemotesCtx) (rs : List RemoteRow)
    → keep (is_remote u l) (map (λ x. if is_remote u l x then refreshed abook name ctx x else x) rs)
      ≡ map (refreshed abook name ctx) (keep (is_remote u l) rs)
keep-refreshed u l abook name ctx [] = refl
keep-refreshed u l abook name ctx (x ∷ rs) =
    let rest = keep-refreshed u l abook name ctx rs in
    elim (Bool-cases (is_remote u l x)) [
      | inl e ↦ simp e (ap (λ z. refreshed abook name ctx x ∷ z) rest)
      | inr e ↦ simp e rest
    ]

feed-exists :
    (ctx : RemotesCtx) (rs : List RemoteRow)
    → ctx.exists ≡ true
    → (feed fetch_remote_data ctx rs).exists ≡ true
feed-exists ctx [] h = h
feed-exists ctx (r ∷ rs) h = feed-exists (fetch_remote_data r ctx) rs refl

-- The first row that passes a test passes it.
keep-first :
    (p : RemoteRow → Bool) (rs rest : List RemoteRow) (r : RemoteRow)
    → keep p rs ≡ r ∷ rest
    → p r ≡ true
keep-first p [] rest r h = cc
keep-first p (x ∷ rs) rest r h = elim (Bool-cases (p x)) [
  | inl e ↦ subst (λ z. p z ≡ true) (head_eq (simp e at h)) e
  | inr e ↦ keep-first p rs rest r (simp e at h)
]
  where
    head_eq : {ys : List RemoteRow} → x ∷ ys ≡ r ∷ rest → x ≡ r
    head_eq q = cc

some_first :
    (u l : Option String) (rs : List RemoteRow) (r : RemoteRow)
    → is_remote u l r ≡ true
    → some r.remote_uid ≡ u
some_first u l rs r h =
    (same_opt_iff (some r.remote_uid) u).0 (left (same_opt (some r.remote_uid) u) _ h)
  where
    left : (a b : Bool) → a && b ≡ true → a ≡ true
    left true b h = refl
    left false b h = cc

new_first :
    (u l : Option String) (x : RemoteRow) (rs : List RemoteRow)
    → some x.remote_uid ≡ u
    → some x.local_uid ≡ l
    → first_of (keep (is_remote u l) (x ∷ rs)) ≡ some x
new_first u l x rs eu el =
    let a = (same_opt_iff (some x.remote_uid) u).1 eu in
    let b = (same_opt_iff (some x.local_uid) l).1 el in simp (a, b) refl

-- The row of the contact after the event, as it is joined.
abbrev pub IsContact : Event → List RemoteRow → Option RemoteRow → Type 0
IsContact ev rs o =
    (uid_of o ≡ ev.fld_remote_uid)
    × (name_of o ≡ (contact_after ev rs).0)
    × (abook_of o ≡ (contact_after ev rs).1)

pub joined-IsContact :
    (ev : Event) (rs rs' : List RemoteRow)
    → is_set ev remote_uid ≡ true
    → RemotesAfter ev rs rs'
    → IsContact ev rs (first_of (keep (is_remote ev.fld_remote_uid ev.fld_local_uid) rs'))
joined-IsContact ev rs rs' set (unset, updated, created) =
    of_rows (keep (is_remote u l) rs) refl (rw set refl)
  where
    u : Option String
    u = ev.fld_remote_uid

    l : Option String
    l = ev.fld_local_uid

    ctx : RemotesCtx
    ctx = found_remote ev rs

    abook : Option String
    abook = new_abook_uid ev

    name : Option String
    name = new_name ev

    of_rows :
        (ms : List RemoteRow)
        → keep (is_remote u l) rs ≡ ms
        → ctx ≡ feed fetch_remote_data no_remote ms
        → (uid_of (first_of (keep (is_remote u l) rs')) ≡ u)
          × (name_of (first_of (keep (is_remote u l) rs')) ≡ (contact_row ev ctx ms).0)
          × (abook_of (first_of (keep (is_remote u l) rs')) ≡ (contact_row ev ctx ms).1)
    of_rows [] none_there fed =
        let (a, b, in_l, in_r, made) = created set (ap (λ (c : RemotesCtx). c.exists) fed) in
        let x : RemoteRow = record {
          local_uid = a;
          remote_uid = b;
          remote_name = name;
          abook_uid = abook;
        } in
        let at_first =
          ap (λ z. first_of (keep (is_remote u l) z)) made
          ∙ new_first u l x rs (sym in_r) (sym in_l) in
        (ap uid_of at_first ∙ sym in_r, ap name_of at_first, ap abook_of at_first)
    of_rows (r ∷ rest) there fed =
        let exists =
          ap (λ (c : RemotesCtx). c.exists) fed
          ∙ feed-exists (fetch_remote_data r no_remote) rest refl in
        let at_first =
          ap (λ z. first_of (keep (is_remote u l) z)) (updated set exists)
          ∙ ap first_of (keep-refreshed u l abook name ctx rs)
          ∙ ap (λ z. first_of (map (refreshed abook name ctx) z)) there in
        (
          ap uid_of at_first ∙ some_first u l rs r (keep-first (is_remote u l) rs rest r there),
          ap name_of at_first,
          ap abook_of at_first,
        )
