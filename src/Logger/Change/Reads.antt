-- ===== src/Logger/Change/Reads.antt =====
-- `rtcom_el_set_read_events` of src/eventlogger.c: which of the events are marked, with no
-- transaction open.
use rtcom_eventlogger.Common.{
  ℕ, ◌≡◌, refl, sym, ◌∙◌, ap, ℤ, pos_part, Bool, true, some, List, [], ◌∷◌, ◌++◌,
}
use rtcom_eventlogger.Db.{Core}
use rtcom_eventlogger.Store.{Tables, update_events}
use rtcom_eventlogger.Logger.{El, World, Outcome, crashed, failed, good, go_on}
use rtcom_eventlogger.Logger.Single.{Unless}
use rtcom_eventlogger.Logger.Change.{has_id, with_read, set_read_event, set_each, set_read_events}
use rtcom_eventlogger.Logger.Change.Single.{IsId, Changed, set_read_event-Changed}

-- The tables after the events with these ids were marked, in order.
abbrev pub marked : Bool → Tables → List ℤ → Tables
marked read t [] = t
marked read t (i ∷ rest) = marked read (update_events (has_id (pos_part i)) (with_read read) t) rest

-- Some of the ids were marked, from the first one on, and all of them if it is a success.
abbrev pub Prefix : Bool → List ℤ → El → Outcome (Unit {0}) × El → Type 0
Prefix read ids el r =
    (done : List ℤ) × (rest : List ℤ) × (ids ≡ done ++ rest)
    × (r.1.db.core ≡ record el.db.core { tables = marked read el.db.core.tables done })
    × (r.0 ≡ good tt → rest ≡ [])

module _ (w : World) (read : Bool) where
  each_step :
      (i : ℤ) (rest : List ℤ) (el : El) (r : Outcome (Unit {0}) × El)
      → el.db.core.autocommit ≡ true
      → ((el' : El)
          → el'.db.core.autocommit ≡ true
          → Prefix read rest el' (set_each w rest read el'))
      → Unless (λ _ el'. (n : ℕ) × IsId i n × Changed el n (with_read read) el') el r
      → Prefix read (i ∷ rest) el (go_on (λ _. set_each w rest read) r)
  each_step i rest el (crashed, el') alone ih h = ([], i ∷ rest, refl, h.0, λ e. cc)
  each_step i rest el (failed e, el') alone ih h = ([], i ∷ rest, refl, h.0, λ e. cc)
  each_step i rest el (good u, el') alone ih (n, (m, hm, hi), (changed, sends)) =
      let (done, left, split, core, all) =
        ih el' (ap (λ (c : Core Tables). c.autocommit) changed ∙ alone) in
      (
        i ∷ done,
        left,
        ap (λ z. i ∷ z) split,
        core
            ∙ ap (λ (c : Core Tables). record c { tables = marked read c.tables done }) changed
            ∙ ap
                (λ k. record el.db.core {
                  tables =
                      marked read (update_events (has_id k) (with_read read) el.db.core.tables)
                        done;
                })
                (sym (ap pos_part hi)),
        all,
      )

  set_each-Prefix :
      (ids : List ℤ) (el : El)
      → el.db.core.autocommit ≡ true
      → Prefix read ids el (set_each w ids read el)
  unfolding set_each
  set_each-Prefix [] el alone = ([], [], refl, refl, λ _. refl)
  set_each-Prefix (i ∷ rest) el alone =
      each_step i rest el (set_read_event w i read el) alone (set_each-Prefix rest)
        (set_read_event-Changed w i read el alone)

  -- `rtcom_el_set_read_events` is no transaction: with none open, it marks the events one by one,
  -- each for good, in the order of the array. Where it returns 0, all of them are marked; where it
  -- fails, those before some place are, and the tables are else unchanged.
  pub set_read_events-Prefix :
      (ids : List ℤ) (el : El)
      → el.db.core.autocommit ≡ true
      → Prefix read ids el (set_read_events w (some ids) read el)
  unfolding set_read_events
  set_read_events-Prefix [] el alone = ([], [], refl, refl, λ _. refl)
  set_read_events-Prefix (i ∷ rest) el alone = set_each-Prefix (i ∷ rest) el alone
