-- ===== src/Fsm/Types/Result/Laws.antt =====
-- How the results of pkg/fsm/types/results.go reach controller-runtime.
use achilles_sdk.Fsm.Types.Result
use achilles_sdk.Fsm.Types.Result.{Result, Outcome, no_requeue, zero_result}
use achilles_sdk.Prelude.{
  Bool, not, nat_beq_iff, if◌then◌else◌, ◌&&◌, String, arith, eq_refl, is_some, nat_eq, none,
  string_eq, true, ◌==◌, ◌≡◌,
}

-- `WrapError` changes nothing but the error: what Go's caller sees requeued stays so, and a result
-- with no error is returned as it is. An error result loses the reason that it carried.
pub wrap_error_outcome :
    (r : Result) (msg : String)
    → ((Result.get (Result.wrap_error r msg)).requeue ≡ (Result.get r).requeue)
      × ((Result.get (Result.wrap_error r msg)).requeue_after ≡ (Result.get r).requeue_after)
      × (is_some (Result.get (Result.wrap_error r msg)).error ≡ is_some r.error)
      × (r.error ≡ none → Result.wrap_error r msg ≡ r)
      × (is_some r.error ≡ true → (Result.wrap_error r msg).reason ≡ "")
unfolding Result.get Result.wrap_error
wrap_error_outcome r msg = ground (arith, eq_refl "")

-- The result asks for a requeue and there is no error.
abbrev pub asks : Result → Bool
asks r = not (is_some r.error) && not (r.requeue_msg == "")

-- What a controller is told to do: the error is passed on; a requeue is asked for exactly by a
-- result that has no error and a message that is not empty, after the duration if there is one and
-- with backoff if not. Without such a message the duration is lost.
pub get_outcome :
    (r : Result)
    → ((Result.get r).error ≡ r.error)
      × ((Result.get r).requeue ≡ (asks r && r.requeue_after == 0))
      × ((Result.get r).requeue_after ≡ (if asks r then r.requeue_after else 0))
unfolding Result.get
get_outcome r = (ground arith, ground arith, ground (arith, nat_beq_iff r.requeue_after 0))
