-- ===== src/Cache/Tests/Encoding.antt =====
-- A way to write a stored page as a text that reads back, in the place of JSON.
use Prim.Native.Char.{Char, code}
use presslabz.Base.{
  ℕ, zero, suc, ◌≡◌, refl, ap, Option, none, some, List, [], ◌∷◌, String, ◌==◌, if◌then◌else◌,
  length,
}
use presslabz.Cache.Store.{StoredPage, Json}
use presslabz.Cache.Runs.{RoundTrips}

-- Each character behind a `1`, then a `0`, then the rest.
abbrev pub write_text : String → String → String
write_text String.[] rest = String.◌∷◌ "0" rest
write_text (String.◌∷◌ c s) rest = String.◌∷◌ "1" (String.◌∷◌ c (write_text s rest))

abbrev pub prepend : Char → Option (String × String) → Option (String × String)
prepend c none = none
prepend c (some (s, rest)) = some (String.◌∷◌ c s, rest)

abbrev pub read_text : String → Option (String × String)
read_text String.[] = none
read_text (String.◌∷◌ d String.[]) = if code d == 48 then some (String.[], String.[]) else none
read_text (String.◌∷◌ d (String.◌∷◌ c s)) =
    let rest = read_text s in
    if code d == 48 then some (String.[], String.◌∷◌ c s) else prepend c rest

read_text-write_text : (s rest : String) → read_text (write_text s rest) ≡ some (s, rest)
read_text-write_text String.[] String.[] = refl
read_text-write_text String.[] (String.◌∷◌ c s) = refl
read_text-write_text (String.◌∷◌ c s) rest = ap (prepend c) (read_text-write_text s rest)

abbrev pub write_number : ℕ → String → String
write_number zero rest = String.◌∷◌ "0" rest
write_number (suc n) rest = String.◌∷◌ "1" (write_number n rest)

abbrev pub next : Option (ℕ × String) → Option (ℕ × String)
next none = none
next (some (n, rest)) = some (suc n, rest)

abbrev pub read_number : String → Option (ℕ × String)
read_number String.[] = none
read_number (String.◌∷◌ d s) =
    let rest = read_number s in if code d == 48 then some (0, s) else next rest

read_number-write_number :
    (n : ℕ) (rest : String) → read_number (write_number n rest) ≡ some (n, rest)
read_number-write_number zero rest = refl
read_number-write_number (suc n) rest = ap next (read_number-write_number n rest)

abbrev pub and_then : {A B : Type 0} → Option A → (A → Option B) → Option B
and_then none f = none
and_then (some a) f = f a

abbrev pub write_headers : List (String × String) → String → String
write_headers [] rest = rest
write_headers ((name, value) ∷ headers) rest =
    write_text name (write_text value (write_headers headers rest))

abbrev pub read_headers : ℕ → String → Option (List (String × String) × String)
read_headers zero s = some ([], s)
read_headers (suc n) s = and_then (read_text s) (λ (name, s1).
    and_then (read_text s1) (λ (value, s2).
      and_then (read_headers n s2) (λ (headers, s3). some ((name, value) ∷ headers, s3))))

read_headers-write_headers :
    (headers : List (String × String)) (rest : String)
    → read_headers (length headers) (write_headers headers rest) ≡ some (headers, rest)
read_headers-write_headers [] rest = refl
read_headers-write_headers ((name, value) ∷ headers) rest =
    rw (read_text-write_text name (write_text value (write_headers headers rest))) (
      rw (read_text-write_text value (write_headers headers rest))
        (rw (read_headers-write_headers headers rest) refl))

abbrev pub write_stored : StoredPage → String
write_stored stored = write_text stored.page.body (
    write_number stored.page.status (
      write_number (length stored.page.headers)
        (write_headers stored.page.headers (write_number stored.stored_at String.[]))))

abbrev pub read_stored : String → Option StoredPage
read_stored s = and_then (read_text s) (λ (body, s1). and_then (read_number s1) (λ (status, s2).
    and_then (read_number s2) (λ (count, s3). and_then (read_headers count s3) (λ (headers, s4).
      and_then (read_number s4) (λ (at, s5). some (record {
        page = record { body = body; status = status; headers = headers };
        stored_at = at;
      }))))))

abbrev pub plain_text : Json
plain_text = record { stringify = write_stored; parse = read_stored }

pub plain_text-RoundTrips : RoundTrips plain_text
plain_text-RoundTrips stored =
    let at = write_number stored.stored_at String.[] in
    let headers = write_headers stored.page.headers at in
    let count = write_number (length stored.page.headers) headers in
    rw (read_text-write_text stored.page.body (write_number stored.page.status count)) (
      rw (read_number-write_number stored.page.status count) (
        rw (read_number-write_number (length stored.page.headers) headers) (
          rw (read_headers-write_headers stored.page.headers at)
            (rw (read_number-write_number stored.stored_at String.[]) refl))))
