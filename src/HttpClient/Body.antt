-- ===== src/HttpClient/Body.antt =====
-- `ReadBody` of internal/httpclient/client.go, and the readers that it uses.
use crated.Prelude.{
  ℕ, zero, suc, ◌+◌, ◌-◌, ◌^◌, ◌≤◌, ◌<◌, Bool, true, Option, none, some, [], ◌∷◌, Error, errorf,
  wrapf, int, Result, ok, err, ltb, leb, if◌then◌else◌, ℤ, pos, negsuc, length, ◌≡◌, refl, ◌↔◌, inl,
  inr, arith, Bool-cases,
}
use crated.HttpClient.{Bytes, Reader}

abbrev pub take : ℕ → Bytes → Bytes
take zero xs = []
take (suc n) [] = []
take (suc n) (x ∷ xs) = x ∷ take n xs

-- io.ReadAll(io.LimitReader(r, n)): the error of `r` shows only if the limit is not reached.
unfoldable pub read_limited : ℕ → Reader → Bytes × Option Error
read_limited n r = (take n r.content, if leb n (length r.content) then none else r.failure)

-- c.opts.MaxBodySize+1 as an int64, and io.LimitReader's reading of a limit that is not positive.
abbrev pub limit_of : ℤ → ℕ
limit_of (pos n) = if ltb (n + 1) (2 ^ 63) then n + 1 else 0
limit_of (negsuc n) = 0

-- int64(len(data)) > c.opts.MaxBodySize
abbrev pub exceeds : ℕ → ℤ → Bool
exceeds len (pos n) = ltb n len
exceeds len (negsuc n) = true

-- `ReadBody`, for a client with the option `max`.
unfoldable pub read_body : ℤ → Reader → Result Bytes
unfolding read_limited
read_body max r =
    let (data_read, failure) = read_limited (limit_of max) r in
    elim failure [
      | some e ↦ err (wrapf "reading response body: %w" [] e)
      | none ↦
          if exceeds (length data_read) max
          then err (errorf "response body exceeds %d bytes limit" (int max ∷ []))
          else ok data_read
    ]

take_all : (n : ℕ) (xs : Bytes) → length xs ≤ n → take n xs ≡ xs
take_all zero [] h = refl
take_all zero (x ∷ xs) h = absurd (omega arith)
take_all (suc n) [] h = refl
take_all (suc n) (x ∷ xs) h = ground (arith, take_all n xs)

length-take : (n : ℕ) (xs : Bytes) → n ≤ length xs → length (take n xs) ≡ n
length-take zero xs h = refl
length-take (suc n) [] h = absurd (omega arith)
length-take (suc n) (x ∷ xs) h = omega (arith, length-take n xs)

-- With a limit of `n` bytes below the largest int64, so that n + 1 is one, ReadBody returns a body
-- exactly if the whole body came through with no error and has at most `n` bytes, and it returns
-- all of it: nothing is cut off silently.
pub read_body_iff :
    (n : ℕ) (r : Reader) (body : Bytes)
    → n + 1 < 2 ^ 63
    → (read_body (pos n) r ≡ ok body)
      ↔ ((body ≡ r.content) × (length r.content ≤ n) × (r.failure ≡ none))
unfolding read_body
read_body_iff n r body h = elim (Bool-cases (leb (n + 1) (length r.content))) [
  | inl long ↦ ground (arith, length-take (n + 1) r.content)
  | inr short ↦ ground (arith, take_all (n + 1) r.content)
]

-- At the largest int64 the limit wraps around: any body at all reads as empty, with no error.
pub read_body_max : (r : Reader) → read_body (pos (2 ^ 63 - 1)) r ≡ ok []
unfolding read_body
read_body_max r = ground arith
