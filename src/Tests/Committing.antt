-- ===== src/Tests/Committing.antt =====
-- A failed result for the attempt that is leased.
use factory_floor.Common.{
  arith, delete_where, set_where, all_rows, any_row, place, order_by, first_where, ◌≡◌, ◌⊎◌, refl,
  false, none, [], ◌∷◌, rows_where,
}
use factory_floor.Tables.{Db}
use factory_floor.Tables.Proposed.{ProposedResult}
use factory_floor.Commit.Submit.{commit}
use factory_floor.Commit.Finish.{retry_after, retry_scheduled, duplicate, fail_or_retry, failure_of}
use factory_floor.Commit.Fencing.{IsAccepted, IsCommitted, commit-IsAccepted}
use factory_floor.Commit.Disposed.{
  IsLast, IsRetried, IsFailed, fail_or_retry-IsRetried, fail_or_retry-IsFailed,
}
use factory_floor.Tests.Data.{working, env, failed_result, one_execution, one_attempt}

abbrev retried : Db
unfolding commit
retried = (commit env failed_result 1 false working).1

commit-IsAccepted_example :
    ((retry_scheduled ≡ duplicate) × (retried ≡ working) × IsCommitted failed_result 1 working)
    ⊎ IsAccepted failed_result false 2000 working
unfolding retried commit first_where order_by place rows_where any_row all_rows set_where
    delete_where fail_or_retry retry_after
commit-IsAccepted_example =
    commit-IsAccepted env failed_result 1 false working retried retry_scheduled refl

abbrev late_result : ProposedResult
late_result = record failed_result { lease_token = 501 }

working-IsLast : IsLast one_execution one_attempt 400 working
unfolding IsLast
working-IsLast = ((λ e. (omega arith, (λ k. absurd (cc)))), tt)

fail_or_retry-IsRetried_example :
    IsRetried one_execution 2
      (100 ∷ [])
      3000
      (fail_or_retry env failed_result one_execution one_attempt (100 ∷ []) working).1
fail_or_retry-IsRetried_example =
    fail_or_retry-IsRetried env failed_result one_execution one_attempt (100 ∷ []) working
      (record { failed = refl; retryable = refl; lower = omega arith; upper = omega arith })
      working-IsLast

abbrev fatal_result : ProposedResult
fatal_result = record failed_result { failure = none }

fail_or_retry-IsFailed_example :
    IsFailed one_execution
      (failure_of fatal_result)
      (100 ∷ [])
      (fail_or_retry env fatal_result one_execution one_attempt (100 ∷ []) working).1
fail_or_retry-IsFailed_example =
    fail_or_retry-IsFailed env fatal_result one_execution one_attempt (100 ∷ []) working
      (λ r. let e = r.retryable in absurd (cc)) working-IsLast
