-- ===== src/ReaderCache/Serve.antt =====
-- The loop of ServeRequest.
use motown.Base.{
  ℕ, zero, suc, ◌+◌, ◌-◌, ◌≤◌, ◌<◌, ◌≡◌, refl, sym, ap, ◌∙◌, subst, min, true, false, ◌&&◌, ◌||◌,
  not, Bool-cases, ◌⊎◌, inl, inr, Option, none, some, List, [], ◌∷◌, ◌++◌, arith, ltb, leb, ◌==◌,
  length, get_elem?, take, drop, length-append, length-take, length-drop,
}
use mathlib.Core.List.{append-nil, append_assoc}
use motown.SparseBuffer.{SparseBuffer}
use motown.SparseBuffer.Spans.{within, extents, size_at}
use motown.SparseBuffer.Search.{Holds}
use motown.SparseBuffer.Laws.{IsValid}
use motown.SparseBuffer.Regions.{find_region_containing-Holds}
use motown.SparseBuffer.Missing.{StartsBy, find_region_containing_missing}
use motown.SparseBuffer.Create.{Created, find_or_create_hole-Created}
use motown.Conversion.Enums.{Result}
use motown.ReaderCache.{
  is_ok, ReadAtRequest, copy_from, Store, region_at, copy_region, Served, wait_for_intake,
  copy_found, serve_rounds,
}
use motown.ReaderCache.Found.{Reads, Reads-append, Reads-piece, region_at-reads}

-- A store from which the loop runs: valid, without an error, with a request that has room for what
-- is to be read, a first region that does not lie behind the position, and a null hint or a hole.
pub record IsServing (s : Store) (r : ReadAtRequest) : Type 0 where
  pub valid : IsValid s.buffer
  pub no_error : s.result ≡ Result.ok
  pub request : s.read_request ≡ some r
  pub room : s.remaining ≤ r.remaining
  pub in_asset : s.position + s.remaining ≤ s.buffer.size
  pub starts : StartsBy s.position s.buffer.regions
  pub hint : (h : ℕ) → s.intake_hole ≡ some h → (n : ℕ) × (size_at h s.buffer.holes ≡ some n)

-- What copies have changed: the request got the bytes that the regions hold from the position on.
pub record Progress (s : Store) (r : ReadAtRequest) (bytes : List ℕ) (t : Store) (u : ReadAtRequest)
    : Type 0 where
  pub reads : Reads s.position bytes s.buffer.regions
  pub copied : u.buffer ≡ r.buffer ++ bytes
  pub left : u.remaining + length bytes ≡ r.remaining
  pub original_same : u.original ≡ r.original
  pub advanced : t.position ≡ s.position + length bytes
  pub to_serve : t.remaining + length bytes ≡ s.remaining
  pub buffer_same : t.buffer ≡ s.buffer
  pub serving : IsServing t u

Progress-refl : (s : Store) (r : ReadAtRequest) → IsServing s r → Progress s r [] s r
Progress-refl s r v = record {
  reads = tt;
  copied = sym (append-nil r.buffer);
  left = omega arith;
  original_same = refl;
  advanced = omega arith;
  to_serve = omega arith;
  buffer_same = refl;
  serving = v;
}

Progress-trans :
    (s t w : Store) (r u v : ReadAtRequest) (bs cs : List ℕ)
    → Progress s r bs t u
    → Progress t u cs w v
    → Progress s r (bs ++ cs) w v
Progress-trans s t w r u v bs cs p q =
    let size = length-append bs cs in
    record {
      reads =
          Reads-append s.position t.position bs cs s.buffer.regions p.advanced p.reads
            (subst (λ b. Reads t.position cs b.regions) p.buffer_same q.reads);
      copied = q.copied ∙ (ap (λ z. z ++ cs) p.copied ∙ append_assoc r.buffer bs cs);
      left = omega (arith, size, p.left, q.left);
      original_same = q.original_same ∙ p.original_same;
      advanced = omega (arith, size, p.advanced, q.advanced);
      to_serve = omega (arith, size, p.to_serve, q.to_serve);
      buffer_same = q.buffer_same ∙ p.buffer_same;
      serving = q.serving;
    }

-- One copy.
record Copies (k : ℕ) (s : Store) (r : ReadAtRequest) : Type 0 where
  after : Store
  request : ReadAtRequest
  bytes : List ℕ
  returns : copy_found k s ≡ some after
  some_bytes : 0 < length bytes
  progress : Progress s r bytes after request

StartsBy-le :
    (x y : ℕ) (regions : List (ℕ × List ℕ)) → x ≤ y → StartsBy x regions → StartsBy y regions
StartsBy-le x y [] le h = tt
StartsBy-le x y ((p, s) ∷ rest) le h = omega arith

copy_found-Copies :
    (k : ℕ) (s : Store) (r : ReadAtRequest)
    → IsServing s r
    → 0 < s.remaining
    → Holds s.position (extents s.buffer.regions) k
    → Copies k s r
unfolding copy_found copy_region copy_from
copy_found-Copies k s r v pos (n, held, low, up) =
    let regions = s.buffer.regions in
    let x = s.position in
    let (size, reads) = region_at-reads k n 0 regions s.buffer.size v.valid.regions_ordered held in
    let bytes = region_at k regions in
    let count = min (k + length bytes - x) s.remaining in
    let piece = take count (drop (x - k) bytes) in
    let measured : length piece ≡ count =
      omega (arith, length-take count (drop (x - k) bytes), length-drop (x - k) bytes) in
    let fits : leb (length piece) r.remaining ≡ true = let room = v.room in ground arith in
    let here : (leb k x && ltb x (k + length bytes)) ≡ true = ground arith in
    let some_bytes : 0 < length piece = omega arith in
    let request = record r {
      position = r.position + length piece;
      buffer = r.buffer ++ piece;
      remaining = r.remaining - length piece;
    } in
    let after = record s {
      read_region = some k;
      read_request = some request;
      position = x + count;
      remaining = s.remaining - count;
    } in
    record {
      after = after;
      request = request;
      bytes = piece;
      returns = rw (v.request, fits, here) refl;
      some_bytes = some_bytes;
      progress = record {
        reads = Reads-piece x count (x - k) bytes regions (omega arith) (λ i lt.
            let same : x + i - k ≡ x - k + i = omega arith in
            reads (x + i) (omega arith) (omega arith) ∙ ap (get_elem? bytes) same);
        copied = refl;
        left = let room = v.room in omega arith;
        original_same = refl;
        advanced = omega arith;
        to_serve = omega arith;
        buffer_same = refl;
        serving = record {
          valid = v.valid;
          no_error = v.no_error;
          request = refl;
          room = let room = v.room in omega arith;
          in_asset = let fits = v.in_asset in omega arith;
          starts = StartsBy-le x (x + count) regions (omega arith) v.starts;
          hint = v.hint;
        };
      };
    }

-- The store that waits, with a buffer whose hole starts at its position.
abbrev pub waits_with : SparseBuffer → Store → Store
waits_with b t = record t { buffer = b; read_hole = some t.position; read_region = none }

-- How the loop may end: with nothing left to read, or at a position that no region holds, where it
-- makes a hole and waits.
abbrev pub Ends : Store → Option Served → Type 0
Ends t o =
    ((t.remaining ≡ 0) × (o ≡ some (Served.finished t)))
    ⊎ ((0 < t.remaining)
        × (within t.position (extents t.buffer.regions) ≡ false)
        × ((b : SparseBuffer) × Created t.position t.buffer (some b)
            × (o ≡ some (Served.waiting (waits_with b t)))))

pub record Runs (s : Store) (r : ReadAtRequest) (o : Option Served) : Type 0 where
  pub after : Store
  pub request : ReadAtRequest
  pub bytes : List ℕ
  pub progress : Progress s r bytes after request
  pub ends : Ends after o

wait_for_intake-Ends :
    (s : Store) (r : ReadAtRequest)
    → IsServing s r
    → 0 < s.remaining
    → within s.position (extents s.buffer.regions) ≡ false
    → Ends s (wait_for_intake s)
unfolding wait_for_intake
wait_for_intake-Ends s r v pos outside =
    let in_asset = v.in_asset in
    let in_hole : within s.position s.buffer.holes ≡ true =
      v.valid.partition s.position (omega arith) ∙ ap not outside in
    let c = find_or_create_hole-Created s.position s.intake_hole s.buffer v.valid in_hole v.hint in
    inr (
      pos,
      outside,
      (
        c.after,
        record {
          after = c.after;
          returns = refl;
          valid = c.valid;
          size_same = c.size_same;
          regions_same = c.regions_same;
          within_same = c.within_same;
          starts = c.starts;
        },
        rw (c.returns, wait_for_intake) refl,
      ),
    )

-- The loop's test.
stops :
    (s : Store) (r : ReadAtRequest)
    → IsServing s r
    → (s.remaining == 0) ≡ true
    → (not (is_ok s.result) || (s.remaining == 0)) ≡ true
stops s r v e = rw (v.no_error, e) refl

goes_on :
    (s : Store) (r : ReadAtRequest)
    → IsServing s r
    → (s.remaining == 0) ≡ false
    → (not (is_ok s.result) || (s.remaining == 0)) ≡ false
goes_on s r v e = rw (v.no_error, e) refl

-- The loop ends within one round for each byte that is to be read, and one more.
pub serve_rounds-Runs :
    (fuel : ℕ) (s : Store) (r : ReadAtRequest)
    → IsServing s r
    → s.remaining < fuel
    → Runs s r (serve_rounds fuel s)
unfolding serve_rounds
serve_rounds-Runs zero s r v enough = absurd (omega arith)
serve_rounds-Runs (suc fuel) s r v enough = elim (Bool-cases (s.remaining == 0)) [
  | inl done ↦ record {
    after = s;
    request = r;
    bytes = [];
    progress = Progress-refl s r v;
    ends = inl (ground arith, rw (stops s r v done) refl);
  }
  | inr more ↦ elim (Bool-cases (within s.position (extents s.buffer.regions))) [
    | inr outside ↦
        let missing =
          find_region_containing_missing s.position s.read_region s.buffer v.valid.regions_ordered
            v.starts outside in
        rw (goes_on s r v more, missing)
          (record {
            after = s;
            request = r;
            bytes = [];
            progress = Progress-refl s r v;
            ends = wait_for_intake-Ends s r v (ground arith) outside;
          })
    | inl inside ↦
        let (k, found, held) =
          find_region_containing-Holds s.position s.read_region s.buffer v.valid.regions_ordered
            inside in
        let c = copy_found-Copies k s r v (ground arith) held in
        let p = c.progress in
        let some_bytes = c.some_bytes in
        let to_serve = p.to_serve in
        let run = serve_rounds-Runs fuel c.after c.request p.serving (omega arith) in
        rw (goes_on s r v more, found, c.returns)
          (record {
            after = run.after;
            request = run.request;
            bytes = c.bytes ++ run.bytes;
            progress =
                Progress-trans s c.after run.after r c.request run.request c.bytes run.bytes p
                  run.progress;
            ends = run.ends;
          })
  ]
]
