-- ===== src/Http/Headers/Table.antt =====
-- What the loop of `onion_http_parse_headers` (src/onion/request.c) leaves in the request when it
-- stores the given headers.
use checks.Prelude.{
  get_elem?-some, get_elem?-set_self, ℕ, zero, suc, ◌+◌, ◌<◌, ◌≤◌, ◌≡◌, refl, sym, ap, ◌∙◌, Bool,
  true, false, ◌&&◌, ◌||◌, some, List, [], ◌∷◌, ◌++◌, append_assoc, length, drop, set, get_elem?,
  if◌then◌else◌, arith, length-set, length-append,
}
use mathlib.Core.List.{map}
use checks.Http.CString.{same_nocase, atoi}
use checks.Http.Request.{Request, Header}
use checks.Http.Headers.{
  note_header, set_header, with_name, with_value, host_name, transfer_encoding, chunked,
  content_length,
}
use checks.Http.Headers.Field.{Field}
use checks.Http.Headers.Store.{with_field, stored_text}

abbrev pub with_fields : Request → ℕ → List Field → Request
with_fields r index [] = r
with_fields r index (f ∷ fs) = with_fields (with_field r index f) (suc index) fs

abbrev pub header_of : Field → Header
header_of f = record { name = some (stored_text f.name); value = some (stored_text f.value) }

-- The name, up to case.
abbrev pub named : Field → List ℕ → Bool
named f target = same_nocase (stored_text f.name) target

abbrev pub says_chunked : Field → Bool
says_chunked f = named f transfer_encoding && same_nocase (stored_text f.value) chunked

abbrev pub any_field : (Field → Bool) → List Field → Bool
any_field p [] = false
any_field p (f ∷ fs) = p f || any_field p fs

-- The number in the last Content-Length, or `n` where there is none.
abbrev pub declared : ℕ → List Field → ℕ
declared n [] = n
declared n (f ∷ fs) = declared (if named f content_length then atoi (stored_text f.value) else n) fs

set-set : {A : Type 0} (xs : List A) (i : ℕ) (x y : A) → set (set xs i x) i y ≡ set xs i y
set-set [] i x y = refl
set-set (z ∷ xs) zero x y = refl
set-set (z ∷ xs) (suc i) x y = ap (λ r. z ∷ r) (set-set xs i x y)

set_header-in :
    (r : Request) (i : ℕ) (h : Header) (f : Header → Header)
    → get_elem? r.headers i ≡ some h
    → set_header r i f ≡ record r { headers = set r.headers i (f h) }
set_header-in r i h f e = rw (e, set_header) refl

-- What noting a header leaves alone, and the two flags.
module _ (r : Request) (name value : List ℕ) where
  note_header-headers : (note_header r name value).headers ≡ r.headers
  unfolding note_header
  note_header-headers = ground arith

  note_header-count : (note_header r name value).header_count ≡ r.header_count
  unfolding note_header
  note_header-count = ground arith

  note_header-line_end : (note_header r name value).line_end ≡ r.line_end
  unfolding note_header
  note_header-line_end = ground arith

  note_header-host : (note_header r name value).host ≡ (r.host || same_nocase name host_name)
  unfolding note_header
  note_header-host = ground arith

  note_header-chunked :
      (note_header r name value).is_chunked
      ≡ (r.is_chunked || (same_nocase name transfer_encoding && same_nocase value chunked))
  unfolding note_header
  note_header-chunked = ground arith

  note_header-capacity :
      (note_header r name value).is_chunked ≡ false
      → (note_header r name value).body_capacity
        ≡ (if same_nocase name content_length then atoi value else r.body_capacity)
  unfolding note_header
  note_header-capacity h = ground arith

  note_header-has_length :
      (note_header r name value).is_chunked ≡ false
      → (note_header r name value).is_content_length
        ≡ (r.is_content_length || same_nocase name content_length)
  unfolding note_header
  note_header-has_length h = ground arith

-- What the headers do not change.
abbrev pub Frame : Request → Request → Type 0
Frame r r' =
    (r'.method ≡ r.method)
    × (r'.url ≡ r.url)
    × (r'.version ≡ r.version)
    × (r'.bytes_received ≡ r.bytes_received)

note_header-Frame : (r : Request) (name value : List ℕ) → Frame r (note_header r name value)
unfolding note_header
note_header-Frame r name value = (ground arith, ground arith, ground arith, ground arith)

-- Storing the two strings changes the table only.
set_both :
    (r : Request) (i : ℕ) (f : Field)
    → i < length r.headers
    → set_header
        (set_header r i (λ h. with_name h (some (stored_text f.name))))
        i
        (λ h. with_value h (some (stored_text f.value)))
      ≡ record r { headers = set r.headers i (header_of f) }
set_both r i f lt =
    let (h, e) = get_elem?-some r.headers i lt in
    let named_h : Header = with_name h (some (stored_text f.name)) in
    let r1 : Request = record r { headers = set r.headers i named_h } in
    ap (λ s. set_header s i (λ h. with_value h (some (stored_text f.value))))
      (set_header-in r i h _ e)
    ∙ set_header-in r1 i named_h _ (get_elem?-set_self r.headers i named_h lt)
    ∙ ap (λ hs. record r { headers = hs }) (set-set r.headers i named_h (header_of f))

with_field-note :
    (r : Request) (i : ℕ) (f : Field)
    → i < length r.headers
    → with_field r i f ≡ (
        let r2 : Request = record r { headers = set r.headers i (header_of f) } in
        let r3 = note_header r2 (stored_text f.name) (stored_text f.value) in
        record r3 { header_count = r3.header_count + 1 })
with_field-note r i f lt =
    ap
      (λ r2.
        let r3 = note_header r2 (stored_text f.name) (stored_text f.value) in
        record r3 { header_count = r3.header_count + 1 })
      (set_both r i f lt)

-- The request after the headers from an index on are stored.
pub record Stored (r r' : Request) (index : ℕ) (fs : List Field) : Type 0 where
  pub counted : r'.header_count ≡ r.header_count + length fs
  pub same_line_end : r'.line_end ≡ r.line_end
  pub frame : Frame r r'
  pub hosted : r'.host ≡ (r.host || any_field (λ f. named f host_name) fs)
  pub is_chunked : r'.is_chunked ≡ (r.is_chunked || any_field says_chunked fs)
  pub capacity : r'.is_chunked ≡ false → r'.body_capacity ≡ declared r.body_capacity fs
  pub has_length :
      r'.is_chunked ≡ false
      → r'.is_content_length ≡ (r.is_content_length || any_field (λ f. named f content_length) fs)

-- What storing one header changes, beside the table.
noted-Stored :
    (r : Request) (i : ℕ) (f : Field)
    → i < length r.headers
    → Stored r (with_field r i f) i (f ∷ [])
      × ((with_field r i f).headers ≡ set r.headers i (header_of f))
noted-Stored r i f lt =
    let r2 : Request = record r { headers = set r.headers i (header_of f) } in
    let n = stored_text f.name in
    let v = stored_text f.value in
    (
      rw (with_field-note r i f lt) (record {
        counted = omega (arith, note_header-count r2 n v);
        same_line_end = note_header-line_end r2 n v;
        frame = note_header-Frame r2 n v;
        hosted = note_header-host r2 n v ∙ ap (λ b. r.host || b) (sym (or_false _));
        is_chunked = note_header-chunked r2 n v ∙ ap (λ b. r.is_chunked || b) (sym (or_false _));
        capacity = λ h. note_header-capacity r2 n v h;
        has_length = λ h.
            note_header-has_length r2 n v h ∙ ap (λ b. r.is_content_length || b) (sym (or_false _));
      }),
      ap (λ (s : Request). s.headers) (with_field-note r i f lt) ∙ note_header-headers r2 n v,
    )
  where
    or_false : (b : Bool) → (b || false) ≡ b
    or_false true = refl
    or_false false = refl

Stored-trans :
    (r s t : Request) (i : ℕ) (f : Field) (fs : List Field)
    → Stored r s i (f ∷ [])
    → Stored s t (suc i) fs
    → Stored r t i (f ∷ fs)
Stored-trans r s t i f fs p q = record {
  counted = omega (arith, p.counted, q.counted);
  same_line_end = q.same_line_end ∙ p.same_line_end;
  frame =
      (q.frame.0 ∙ p.frame.0, q.frame.1 ∙ p.frame.1, q.frame.2 ∙ p.frame.2, q.frame.3 ∙ p.frame.3);
  hosted = ground (arith, p.hosted, q.hosted);
  is_chunked = ground (arith, p.is_chunked, q.is_chunked);
  capacity =
      λ h. q.capacity h ∙ ap (λ n. declared n fs) (p.capacity (ground (arith, q.is_chunked)));
  has_length = λ h.
      let k : s.is_chunked ≡ false = ground (arith, q.is_chunked) in
      ground (arith, q.has_length h, p.has_length k);
}

abbrev pub put_fields : ℕ → List Header → List Field → List Header
put_fields i hs [] = hs
put_fields i hs (f ∷ fs) = put_fields (suc i) (set hs i (header_of f)) fs

pub with_fields-Stored :
    (r : Request) (i : ℕ) (fs : List Field)
    → i + length fs ≤ length r.headers
    → Stored r (with_fields r i fs) i fs
      × ((with_fields r i fs).headers ≡ put_fields i r.headers fs)
with_fields-Stored r i [] h = (
  record {
    counted = omega arith;
    same_line_end = refl;
    frame = (refl, refl, refl, refl);
    hosted = ground arith;
    is_chunked = ground arith;
    capacity = λ h. refl;
    has_length = λ h. ground arith;
  },
  refl,
)
with_fields-Stored r i (f ∷ fs) h =
    let r1 = with_field r i f in
    let one = noted-Stored r i f (omega arith) in
    let len : length r1.headers ≡ length r.headers =
      ap length one.1 ∙ length-set r.headers i (header_of f) in
    let ih = with_fields-Stored r1 (suc i) fs (omega (arith, len)) in
    (
      Stored-trans r r1 (with_fields r1 (suc i) fs) i f fs one.0 ih.0,
      ih.1 ∙ ap (λ hs. put_fields (suc i) hs fs) one.1,
    )

set-append :
    {A : Type 0} (pre : List A) (x y : A) (xs : List A)
    → set (pre ++ (x ∷ xs)) (length pre) y ≡ pre ++ (y ∷ xs)
set-append [] x y xs = refl
set-append (p ∷ pre) x y xs = ap (λ r. p ∷ r) (set-append pre x y xs)

put_fields-append :
    (pre hs : List Header) (i : ℕ) (fs : List Field)
    → i ≡ length pre
    → length fs ≤ length hs
    → put_fields i (pre ++ hs) fs ≡ pre ++ (map header_of fs ++ drop (length fs) hs)
put_fields-append pre hs i [] e h = refl
put_fields-append pre [] i (f ∷ fs) e h = absurd (omega arith)
put_fields-append pre (x ∷ hs) i (f ∷ fs) e h =
    let y = header_of f in
    let there : set (pre ++ (x ∷ hs)) i y ≡ (pre ++ (y ∷ [])) ++ hs =
      ap (λ k. set (pre ++ (x ∷ hs)) k y) e
      ∙ set-append pre x y hs
      ∙ sym (append_assoc pre (y ∷ []) hs) in
    ap (λ t. put_fields (suc i) t fs) there
    ∙ put_fields-append (pre ++ (y ∷ [])) hs (suc i) fs (omega (arith, length-append pre (y ∷ [])))
        (omega arith)
    ∙ append_assoc pre (y ∷ []) (map header_of fs ++ drop (length fs) hs)

-- The table begins with the headers, in order, and is as before behind them.
pub put_fields_all :
    (hs : List Header) (fs : List Field)
    → length fs ≤ length hs
    → put_fields 0 hs fs ≡ map header_of fs ++ drop (length fs) hs
put_fields_all hs fs h = put_fields-append [] hs 0 fs refl h
