-- ===== src/Common/Result.antt =====
-- What code that throws gives: a value; an `Exception` of the program (src/Exception.h), which its
-- handlers catch; or another exception of the standard library, which they do not.
pub data Result (A : Type 0) : Type 0 where
  ok : A → Result A
  exception : Result A
  std_exception : Result A

unfoldable pub and_then : {A B : Type 0} → Result A → (A → Result B) → Result B
and_then (ok a) f = f a
and_then exception f = exception
and_then std_exception f = std_exception
