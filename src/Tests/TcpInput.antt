-- ===== src/Tests/TcpInput.antt =====
-- Two records that arrive in three blocks.
use iqlogger.Common.{
  ℕ, ◌+◌, ◌≡◌, refl, Option, none, some, List, [], ◌∷◌, ◌++◌, Bytes, codes, All, ◌≢◌, ◌==◌,
  if◌then◌else◌, length, arith,
}
use mathlib.Core.Option
use iqlogger.Tcp.{ReadsUntil, receive_all, accepted}
use iqlogger.Tcp.Frames.{receive_all-records}

-- A search for the first zero byte.
unfoldable pub find_zero : Bytes → Option ℕ
find_zero [] = none
find_zero (c ∷ cs) =
    let rest = find_zero cs in if c == 0 then some 1 else Option.map (λ n. n + 1) rest

find_zero-waits : (b : Bytes) → All (λ c. c ≢ 0) b → find_zero b ≡ none
unfolding find_zero
find_zero-waits [] h = refl
find_zero-waits (c ∷ b) h = ground (arith, find_zero-waits b h.1, h.0)

find_zero-finds :
    (front rest : Bytes)
    → All (λ c. c ≢ 0) front
    → find_zero (front ++ (0 ∷ rest)) ≡ some (length front + 1)
unfolding find_zero
find_zero-finds [] rest h = refl
find_zero-finds (c ∷ front) rest h = ground (arith, find_zero-finds front rest h.1, h.0)

pub find_zero-ReadsUntil : ReadsUntil find_zero
find_zero-ReadsUntil = record { waits = find_zero-waits; finds = find_zero-finds }

abbrev blocks : List Bytes
blocks = codes "ab" ∷ (b'c' ∷ 0 ∷ codes "de") ∷ (0 ∷ codes "f") ∷ []

receive_all-records_example :
    ((receive_all find_zero blocks accepted).enqueued ≡ codes "abc" ∷ codes "de" ∷ [])
    × ((receive_all find_zero blocks accepted).buffer ≡ codes "f")
receive_all-records_example = receive_all-records find_zero find_zero-ReadsUntil blocks
