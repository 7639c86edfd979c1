-- ===== src/Result.antt =====
-- include/narthex/nth_result.h: the result codes. `NthResult` is a 32-bit code in C; here it is
-- the enumeration itself. `Run` is an execution that a failed NTH_ASSERT may stop
-- (include/narthex/utils/check.h); NTH_DASSERT does nothing in a release build.
use narthex.Prelude.{Bool, true, false}

pub data NthResult : Type 0 where
  result_ok result_failed result_out_of_memory result_capacity_full result_not_found : NthResult
  result_not_supported result_overflow result_already_exists result_no_more_items : NthResult
  result_invalid_argument result_missing_output result_config_required : NthResult
  result_invalid_range result_invalid_alignment : NthResult
  result_invalid_state result_not_initialized result_already_initialized : NthResult
  result_dependency_uninitialized : NthResult
  result_platform_error result_backend_error result_timeout result_not_ready : NthResult
  result_io_error result_permission_denied : NthResult

-- `r == NTH_RESULT_OK`
abbrev pub is_ok : NthResult → Bool
is_ok result_ok = true
is_ok _ = false

pub data Run {ℓ} (A : Type ℓ) : Type ℓ where
  done : A → Run A
  trap : Run A

infixl 5 ◌>>=◌ ◌>>◌
abbrev pub ◌>>=◌ {ℓ κ} : {A : Type ℓ} {B : Type κ} → Run A → (A → Run B) → Run B
done a >>= f = f a
trap >>= f = trap

abbrev pub ◌>>◌ {ℓ} : {B : Type ℓ} → Run (Unit {0}) → Run B → Run B
m >> k = m >>= λ _. k

-- NTH_ASSERT
abbrev pub nth_assert : Bool → Run (Unit {0})
nth_assert true = done tt
nth_assert false = trap
