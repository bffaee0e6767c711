-- ===== src/Examples/Deleting.antt =====
-- Concrete inputs at which the theorems on deleting events apply: one message in its group.
use rtcom_eventlogger.Common.{ℕ, ◌≡◌, refl, inl, pos, true, some, [], ◌∷◌}
use rtcom_eventlogger.Db.Transaction.{committed}
use rtcom_eventlogger.Store.Cache.{Consistent}
use rtcom_eventlogger.Logger.Change.{has_id}
use rtcom_eventlogger.Logger.Change.Single.{IsId}
use rtcom_eventlogger.Logger.Delete.{
  delete_event, delete_events_by, delete_by_group_uids, delete_all,
}
use rtcom_eventlogger.Store.Refresh.{drop_service}
use rtcom_eventlogger.Logger.{lookup_id}
use rtcom_eventlogger.Logger.Delete.{delete_by_service}
use rtcom_eventlogger.Logger.Delete.Service.{delete_by_service-Good, delete_by_service-Consistent}
use rtcom_eventlogger.Logger.Delete.Single.{Deleted, delete_event-Deletes}
use rtcom_eventlogger.Logger.Delete.Success.{Good}
use rtcom_eventlogger.Logger.Delete.Groups.{
  drop_groups, delete_by_group_uids-Good, delete_by_group_uids-Consistent, delete_all_stale,
}
use rtcom_eventlogger.Db.Exec.{feed}
use rtcom_eventlogger.Common.{same_comm, subst, ◌∙◌, inr}
use rtcom_eventlogger.Store.{in_group, delete_events}
use rtcom_eventlogger.Store.Refresh.{in_list, distinct, refresh_groups, purge}
use rtcom_eventlogger.Store.Delete.{Covers}
use rtcom_eventlogger.Logger.Delete.{get_group_uid_slave, group_uids}
use rtcom_eventlogger.Logger.Delete.Covered.{delete_where-Consistent}
use rtcom_eventlogger.Examples.{
  logger, message_row, one_message, one_message-Consistent, quiet_world,
}

delete_event-Deletes_example :
    Good
      (λ _ el'. (i : ℕ) × IsId (pos 1) i × Deleted (has_id i) one_message (committed el'.db.core))
      (delete_event quiet_world (pos 1) logger)
    × Good
        (λ _ el'. Deleted (in_group "555") one_message (committed el'.db.core))
        (delete_events_by quiet_world (some (in_group "555")) logger)
delete_event-Deletes_example = delete_event-Deletes quiet_world (pos 1) (in_group "555") logger refl

delete_by_service-Good_example :
    Good
      (λ _ el'.
        (s : ℕ) × (lookup_id "RTCOM_EL_SERVICE_SMS" logger.services ≡ some s)
        × (committed el'.db.core ≡ drop_service s one_message))
      (delete_by_service quiet_world "RTCOM_EL_SERVICE_SMS" logger)
delete_by_service-Good_example =
    delete_by_service-Good quiet_world "RTCOM_EL_SERVICE_SMS" logger refl

delete_by_service-Consistent_example :
    Good
      (λ _ el'. Consistent (committed el'.db.core))
      (delete_by_service quiet_world "RTCOM_EL_SERVICE_SMS" logger)
delete_by_service-Consistent_example =
    delete_by_service-Consistent quiet_world "RTCOM_EL_SERVICE_SMS" logger refl
      one_message-Consistent

delete_by_group_uids-Good_example :
    Good
      (λ _ el'. committed el'.db.core ≡ drop_groups ("555" ∷ []) one_message)
      (delete_by_group_uids quiet_world ("555" ∷ []) logger)
delete_by_group_uids-Good_example = delete_by_group_uids-Good quiet_world ("555" ∷ []) logger refl

delete_by_group_uids-Consistent_example :
    Good
      (λ _ el'. Consistent (committed el'.db.core))
      (delete_by_group_uids quiet_world ("555" ∷ []) logger)
delete_by_group_uids-Consistent_example =
    delete_by_group_uids-Consistent quiet_world ("555" ∷ []) logger refl one_message-Consistent

delete_all_stale_example :
    Good (λ _ el'. ¬ Consistent (committed el'.db.core)) (delete_all quiet_world logger)
delete_all_stale_example = delete_all_stale quiet_world logger message_row [] refl refl

updating : Covers (has_id 1) ("555" ∷ []) one_message.events
updating e g (inl same_e) goes member =
    rw (same_comm g "555" ∙ subst (λ z. in_group g z ≡ true) same_e member) refl
updating e g (inr h) goes member = absurd h

groups_of_message :
    in_list (feed get_group_uid_slave [] (group_uids (has_id 1) one_message)) ≡ some ("555" ∷ [])
unfolding in_list distinct
groups_of_message = refl

delete_where-Consistent_example :
    Consistent (purge (refresh_groups ("555" ∷ []) (delete_events (has_id 1) one_message)))
delete_where-Consistent_example =
    delete_where-Consistent (has_id 1) one_message ("555" ∷ []) one_message-Consistent
      groups_of_message
