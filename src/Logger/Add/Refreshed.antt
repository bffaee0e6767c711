-- ===== src/Logger/Add/Refreshed.antt =====
-- The row of a remote, before and after the UPDATE statements of `_update_remotes` in
-- src/eventlogger.c.
use rtcom_eventlogger.Common.{
  ◌≡◌, refl, ap, inl, inr, Bool, true, false, not, Option, some, List, [], ◌∷◌, map, String,
  same_opt, keep, Bool-cases, if◌then◌else◌,
}
use rtcom_eventlogger.Event.{Event, is_set, remote_uid}
use rtcom_eventlogger.Db.Exec.{feed}
use rtcom_eventlogger.Store.{RemoteRow}
use rtcom_eventlogger.Logger.{is_remote}
use rtcom_eventlogger.Logger.Add.{RemotesCtx, fetch_remote_data, no_remote, new_name, new_abook_uid}

-- The row that is there, after the UPDATE statements: a text is kept where the new one is what the
-- code takes for the old one.
abbrev pub refreshed : Option String → Option String → RemotesCtx → RemoteRow → RemoteRow
refreshed abook name ctx r = record r {
  abook_uid = if same_opt abook ctx.abook_uid then r.abook_uid else abook;
  remote_name = if same_opt name ctx.remote_name then r.remote_name else name;
}

-- What the callback has made of the rows of a remote.
abbrev pub found_remote : Event → List RemoteRow → RemotesCtx
found_remote ev rs =
    if is_set ev remote_uid
    then feed fetch_remote_data no_remote (keep (is_remote ev.fld_remote_uid ev.fld_local_uid) rs)
    else no_remote

-- The remotes after an event, by the remotes before it.
abbrev pub RemotesAfter : Event → List RemoteRow → List RemoteRow → Type 0
RemotesAfter ev rs rs' =
    let ctx = found_remote ev rs in
    let name = new_name ev in
    let abook = new_abook_uid ev in
    (is_set ev remote_uid ≡ false → rs' ≡ rs)
    × (is_set ev remote_uid ≡ true
        → ctx.exists ≡ true
        → rs'
          ≡ map
              (λ x.
                if is_remote ev.fld_remote_uid ev.fld_local_uid x
                then refreshed abook name ctx x
                else x)
              rs)
    × (is_set ev remote_uid ≡ true
        → ctx.exists ≡ false
        → (l r : String) × (ev.fld_local_uid ≡ some l)
          × (ev.fld_remote_uid ≡ some r)
          × (rs'
              ≡ record { local_uid = l; remote_uid = r; remote_name = name; abook_uid = abook }
                ∷ rs))

-- One UPDATE of Remotes, where it is made.
abbrev pub updated_when :
    Bool → Option String → Option String → (RemoteRow → RemoteRow) → List RemoteRow → List RemoteRow
updated_when b l r f rs = map (λ x. if is_remote r l x then (if b then f x else x) else x) rs

pub updated_when-false :
    (l r : Option String) (f : RemoteRow → RemoteRow) (rs : List RemoteRow)
    → updated_when false l r f rs ≡ rs
updated_when-false l r f [] = refl
updated_when-false l r f (x ∷ rs) = elim (Bool-cases (is_remote r l x)) [
  | inl e ↦ rw (e, updated_when-false l r f rs) refl
  | inr e ↦ rw (e, updated_when-false l r f rs) refl
]

abbrev when : Bool → Option String → Option String → (RemoteRow → RemoteRow) → RemoteRow → RemoteRow
when b l r f x = if is_remote r l x then (if b then f x else x) else x

abbrev merged : Bool → Bool → Option String → Option String → RemoteRow → RemoteRow
merged a n abook name x = record x {
  abook_uid = if a then x.abook_uid else abook;
  remote_name = if n then x.remote_name else name;
}

row_updates :
    (a n : Bool) (abook name l r : Option String) (x : RemoteRow)
    → when
        (not n)
        l
        r
        (λ y. record y { remote_name = name })
        (when (not a) l r (λ y. record y { abook_uid = abook }) x)
      ≡ (if is_remote r l x then merged a n abook name x else x)
row_updates a n abook name l r x = elim (Bool-cases (is_remote r l x)) [
  | inr e ↦ rw e (rw e refl)
  | inl e ↦ matched a n e
]
  where
    matched :
        (a n : Bool)
        → is_remote r l x ≡ true
        → when
            (not n)
            l
            r
            (λ y. record y { remote_name = name })
            (when (not a) l r (λ y. record y { abook_uid = abook }) x)
          ≡ (if is_remote r l x then merged a n abook name x else x)
    matched true true e = simp e
    matched true false e = simp e
    matched false true e = simp e
    matched false false e = simp e

pub two_updates :
    (abook name l r : Option String) (ctx : RemotesCtx) (rs : List RemoteRow)
    → updated_when
        (not (same_opt name ctx.remote_name))
        l
        r
        (λ x. record x { remote_name = name })
        (updated_when
          (not (same_opt abook ctx.abook_uid))
          l
          r
          (λ x. record x { abook_uid = abook })
          rs)
      ≡ map (λ x. if is_remote r l x then refreshed abook name ctx x else x) rs
two_updates abook name l r ctx [] = refl
two_updates abook name l r ctx (x ∷ rs) =
    rw (row_updates (same_opt abook ctx.abook_uid) (same_opt name ctx.remote_name) abook name l r x)
      (ap (λ z. (if is_remote r l x then refreshed abook name ctx x else x) ∷ z)
        (two_updates abook name l r ctx rs))
