-- ===== src/Event/Equality.antt =====
-- What `rtcom_el_event_equals` (src/event.c) decides.
use rtcom_eventlogger.Common.{
  ℤ, pos, ◌≡◌, refl, ◌↔◌, Bool, true, false, ◌&&◌, Option, none, some, List, [], ◌∷◌, String, arith,
  All, eqb_ℤ, eqb_ℤ_iff, same_iff, same_comm, if◌then◌else◌,
}
use rtcom_eventlogger.Event.{
  Field, Event, is_set, Check, agree, differ, crash, num_check, compare_text, text_check, checks,
  run_checks, event_equals, event_new, set_bit,
}

-- Two events do not contradict one another on a number: where both have it set, it is the same.
abbrev pub NumAgrees : Field → (Event → ℤ) → Event → Event → Type 0
NumAgrees f get a b = is_set a f ≡ true → is_set b f ≡ true → get a ≡ get b

-- So for a text, which must then be there on both sides.
abbrev pub TextAgrees : Field → (Event → Option String) → Event → Event → Type 0
TextAgrees f get a b =
    is_set a f ≡ true → is_set b f ≡ true → (s : String) × (get a ≡ some s) × (get b ≡ some s)

-- The fields that the comparison looks at. `is_read` and the constructed items are not among them.
pub record Agrees (a b : Event) : Type 0 where
  pub on_id : NumAgrees Field.id (λ e. e.fld_id) a b
  pub on_service_id : NumAgrees Field.service_id (λ e. e.fld_service_id) a b
  pub on_event_type_id : NumAgrees Field.event_type_id (λ e. e.fld_event_type_id) a b
  pub on_storage_time : NumAgrees Field.storage_time (λ e. e.fld_storage_time) a b
  pub on_start_time : NumAgrees Field.start_time (λ e. e.fld_start_time) a b
  pub on_end_time : NumAgrees Field.end_time (λ e. e.fld_end_time) a b
  pub on_flags : NumAgrees Field.flags (λ e. pos e.fld_flags) a b
  pub on_bytes_sent : NumAgrees Field.bytes_sent (λ e. e.fld_bytes_sent) a b
  pub on_bytes_received : NumAgrees Field.bytes_received (λ e. e.fld_bytes_received) a b
  pub on_remote_ebook_uid : TextAgrees Field.remote_ebook_uid (λ e. e.fld_remote_ebook_uid) a b
  pub on_local_uid : TextAgrees Field.local_uid (λ e. e.fld_local_uid) a b
  pub on_local_name : TextAgrees Field.local_name (λ e. e.fld_local_name) a b
  pub on_remote_uid : TextAgrees Field.remote_uid (λ e. e.fld_remote_uid) a b
  pub on_remote_name : TextAgrees Field.remote_name (λ e. e.fld_remote_name) a b
  pub on_channel : TextAgrees Field.channel (λ e. e.fld_channel) a b
  pub on_free_text : TextAgrees Field.free_text (λ e. e.fld_free_text) a b
  pub on_group_uid : TextAgrees Field.group_uid (λ e. e.fld_group_uid) a b

-- Both guarded comparisons have this shape.
guarded_iff :
    (p q : Bool) (c : Check)
    → ((if p && q then c else agree) ≡ agree) ↔ (p ≡ true → q ≡ true → c ≡ agree)
guarded_iff true true c = (λ h _ _. h, λ h. h refl refl)
guarded_iff true false c = (λ h _ e. cc, λ h. refl)
guarded_iff false q c = (λ h e _. cc, λ h. refl)

num_iff : (x y : ℤ) → ((if eqb_ℤ x y then agree else differ) ≡ agree) ↔ (x ≡ y)
num_iff x y = ground (arith, eqb_ℤ_iff x y)

num_check_iff :
    (f : Field) (get : Event → ℤ) (a b : Event)
    → (num_check f get a b ≡ agree) ↔ NumAgrees f get a b
num_check_iff f get a b =
    let g =
      guarded_iff (is_set a f) (is_set b f) (if eqb_ℤ (get a) (get b) then agree else differ) in
    let n = num_iff (get a) (get b) in (λ h p q. n.0 (g.0 h p q), λ h. g.1 (λ p q. n.1 (h p q)))

compare_text_iff :
    (x y : Option String)
    → (compare_text x y ≡ agree) ↔ ((s : String) × (x ≡ some s) × (y ≡ some s))
compare_text_iff (some s) (some t) =
    (λ h. (s, refl, ground (arith, same_iff s t)), λ h. ground (arith, same_iff s t))
compare_text_iff (some s) none = (λ h. cc, λ h. cc (h.2))
compare_text_iff none y = (λ h. cc, λ h. cc (h.1))

text_check_iff :
    (f : Field) (get : Event → Option String) (a b : Event)
    → (text_check f get a b ≡ agree) ↔ TextAgrees f get a b
text_check_iff f get a b =
    let g = guarded_iff (is_set a f) (is_set b f) (compare_text (get a) (get b)) in
    let t = compare_text_iff (get a) (get b) in
    (λ h p q. t.0 (g.0 h p q), λ h. g.1 (λ p q. t.1 (h p q)))

run_checks_iff : (cs : List Check) → (run_checks cs ≡ some true) ↔ All (λ c. c ≡ agree) cs
run_checks_iff [] = (λ h. tt, λ h. refl)
run_checks_iff (agree ∷ cs) = let ih = run_checks_iff cs in (λ h. (refl, ih.0 h), λ h. ih.1 h.1)
run_checks_iff (differ ∷ cs) = (λ h. cc, λ h. cc (h.0))
run_checks_iff (crash ∷ cs) = (λ h. cc, λ h. cc (h.0))

-- The checks one after the other, read as the fields of `Agrees`.
checks-Agrees : (a b : Event) → All (λ c. c ≡ agree) (checks a b) → Agrees a b
checks-Agrees a b h = record {
  on_id = (num_check_iff Field.id (λ e. e.fld_id) a b).0 (h.0);
  on_service_id = (num_check_iff Field.service_id (λ e. e.fld_service_id) a b).0 (h.1.0);
  on_event_type_id = (num_check_iff Field.event_type_id (λ e. e.fld_event_type_id) a b).0 (h.1.1.0);
  on_storage_time = (num_check_iff Field.storage_time (λ e. e.fld_storage_time) a b).0 (h.1.1.1.0);
  on_start_time = (num_check_iff Field.start_time (λ e. e.fld_start_time) a b).0 (h.1.1.1.1.0);
  on_end_time = (num_check_iff Field.end_time (λ e. e.fld_end_time) a b).0 (h.1.1.1.1.1.0);
  on_flags = (num_check_iff Field.flags (λ e. pos e.fld_flags) a b).0 (h.1.1.1.1.1.1.0);
  on_bytes_sent =
      (num_check_iff Field.bytes_sent (λ e. e.fld_bytes_sent) a b).0 (h.1.1.1.1.1.1.1.0);
  on_bytes_received =
      (num_check_iff Field.bytes_received (λ e. e.fld_bytes_received) a b).0 (h.1.1.1.1.1.1.1.1.0);
  on_remote_ebook_uid =
      (text_check_iff Field.remote_ebook_uid (λ e. e.fld_remote_ebook_uid) a b).0
        (h.1.1.1.1.1.1.1.1.1.0);
  on_local_uid =
      (text_check_iff Field.local_uid (λ e. e.fld_local_uid) a b).0 (h.1.1.1.1.1.1.1.1.1.1.1.0);
  on_local_name =
      (text_check_iff Field.local_name (λ e. e.fld_local_name) a b).0 (h.1.1.1.1.1.1.1.1.1.1.1.1.0);
  on_remote_uid =
      (text_check_iff Field.remote_uid (λ e. e.fld_remote_uid) a b).0
        (h.1.1.1.1.1.1.1.1.1.1.1.1.1.0);
  on_remote_name =
      (text_check_iff Field.remote_name (λ e. e.fld_remote_name) a b).0
        (h.1.1.1.1.1.1.1.1.1.1.1.1.1.1.0);
  on_channel =
      (text_check_iff Field.channel (λ e. e.fld_channel) a b).0 (h.1.1.1.1.1.1.1.1.1.1.1.1.1.1.1.0);
  on_free_text =
      (text_check_iff Field.free_text (λ e. e.fld_free_text) a b).0
        (h.1.1.1.1.1.1.1.1.1.1.1.1.1.1.1.1.0);
  on_group_uid =
      (text_check_iff Field.group_uid (λ e. e.fld_group_uid) a b).0
        (h.1.1.1.1.1.1.1.1.1.1.1.1.1.1.1.1.1.0);
}

Agrees-checks : (a b : Event) → Agrees a b → All (λ c. c ≡ agree) (checks a b)
Agrees-checks a b h = (
  (num_check_iff Field.id (λ e. e.fld_id) a b).1 h.on_id,
  (
    (num_check_iff Field.service_id (λ e. e.fld_service_id) a b).1 h.on_service_id,
    (
      (num_check_iff Field.event_type_id (λ e. e.fld_event_type_id) a b).1 h.on_event_type_id,
      (
        (num_check_iff Field.storage_time (λ e. e.fld_storage_time) a b).1 h.on_storage_time,
        (
          (num_check_iff Field.start_time (λ e. e.fld_start_time) a b).1 h.on_start_time,
          (
            (num_check_iff Field.end_time (λ e. e.fld_end_time) a b).1 h.on_end_time,
            (
              (num_check_iff Field.flags (λ e. pos e.fld_flags) a b).1 h.on_flags,
              (
                (num_check_iff Field.bytes_sent (λ e. e.fld_bytes_sent) a b).1 h.on_bytes_sent,
                (
                  (num_check_iff Field.bytes_received (λ e. e.fld_bytes_received) a b).1
                      h.on_bytes_received,
                  (
                    (text_check_iff Field.remote_ebook_uid (λ e. e.fld_remote_ebook_uid) a b).1
                        h.on_remote_ebook_uid,
                    (
                      (text_check_iff Field.remote_ebook_uid (λ e. e.fld_remote_ebook_uid) a b).1
                          h.on_remote_ebook_uid,
                      (
                        (text_check_iff Field.local_uid (λ e. e.fld_local_uid) a b).1
                            h.on_local_uid,
                        (
                          (text_check_iff Field.local_name (λ e. e.fld_local_name) a b).1
                              h.on_local_name,
                          (
                            (text_check_iff Field.remote_uid (λ e. e.fld_remote_uid) a b).1
                                h.on_remote_uid,
                            (
                              (text_check_iff Field.remote_name (λ e. e.fld_remote_name) a b).1
                                  h.on_remote_name,
                              (
                                (text_check_iff Field.channel (λ e. e.fld_channel) a b).1
                                    h.on_channel,
                                (
                                  (text_check_iff Field.free_text (λ e. e.fld_free_text) a b).1
                                      h.on_free_text,
                                  (
                                    (text_check_iff Field.group_uid (λ e. e.fld_group_uid) a b).1
                                        h.on_group_uid,
                                    tt,
                                  ),
                                ),
                              ),
                            ),
                          ),
                        ),
                      ),
                    ),
                  ),
                ),
              ),
            ),
          ),
        ),
      ),
    ),
  ),
)

-- `rtcom_el_event_equals` answers TRUE exactly for two events that agree on each of the seventeen
-- compared fields that both have set; on a text field both must then hold a text (no NULL).
pub equals-true_iff : (a b : Event) → (event_equals a b ≡ some true) ↔ Agrees a b
unfolding event_equals
equals-true_iff a b = (
  λ h. checks-Agrees a b ((run_checks_iff (checks a b)).0 h),
  λ h. (run_checks_iff (checks a b)).1 (Agrees-checks a b h),
)

num_check_comm :
    (f : Field) (get : Event → ℤ) (a b : Event) → num_check f get a b ≡ num_check f get b a
num_check_comm f get a b = ground (arith, eqb_ℤ_iff (get a) (get b), eqb_ℤ_iff (get b) (get a))

compare_text_comm : (x y : Option String) → compare_text x y ≡ compare_text y x
compare_text_comm (some s) (some t) = rw (same_comm s t)
compare_text_comm (some s) none = refl
compare_text_comm none (some t) = refl
compare_text_comm none none = refl

text_check_comm :
    (f : Field) (get : Event → Option String) (a b : Event)
    → text_check f get a b ≡ text_check f get b a
text_check_comm f get a b = ground (arith, compare_text_comm (get a) (get b))

-- The order of the two events does not matter, also where the comparison would crash.
pub equals_comm : (a b : Event) → event_equals a b ≡ event_equals b a
unfolding event_equals
equals_comm a b = cc (
  num_check_comm Field.id (λ e. e.fld_id) a b,
  num_check_comm Field.service_id (λ e. e.fld_service_id) a b,
  num_check_comm Field.event_type_id (λ e. e.fld_event_type_id) a b,
  num_check_comm Field.storage_time (λ e. e.fld_storage_time) a b,
  num_check_comm Field.start_time (λ e. e.fld_start_time) a b,
  num_check_comm Field.end_time (λ e. e.fld_end_time) a b,
  num_check_comm Field.flags (λ e. pos e.fld_flags) a b,
  num_check_comm Field.bytes_sent (λ e. e.fld_bytes_sent) a b,
  num_check_comm Field.bytes_received (λ e. e.fld_bytes_received) a b,
  text_check_comm Field.remote_ebook_uid (λ e. e.fld_remote_ebook_uid) a b,
  text_check_comm Field.local_uid (λ e. e.fld_local_uid) a b,
  text_check_comm Field.local_name (λ e. e.fld_local_name) a b,
  text_check_comm Field.remote_uid (λ e. e.fld_remote_uid) a b,
  text_check_comm Field.remote_name (λ e. e.fld_remote_name) a b,
  text_check_comm Field.channel (λ e. e.fld_channel) a b,
  text_check_comm Field.free_text (λ e. e.fld_free_text) a b,
  text_check_comm Field.group_uid (λ e. e.fld_group_uid) a b,
)

-- A freshly made event has nothing set, so it equals every event, and the relation is not
-- transitive: there are events a, b and c with a = b and b = c but not a = c.
pub equals_not_transitive : ¬ (
    (a b c : Event)
    → event_equals a b ≡ some true
    → event_equals b c ≡ some true
    → event_equals a c ≡ some true)
unfolding event_equals event_new
equals_not_transitive trans = cc (
    trans (record event_new { mask = set_bit Field.id event_new.mask; fld_id = pos 1 }) event_new
      (record event_new { mask = set_bit Field.id event_new.mask; fld_id = pos 2 }) refl refl)
