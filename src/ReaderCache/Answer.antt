-- ===== src/ReaderCache/Answer.antt =====
-- What SetReadAtRequest does with a new request.
use motown.Base.{
  ℕ, suc, ◌+◌, ◌-◌, ◌%◌, ◌^◌, ◌≤◌, ◌<◌, ◌≡◌, refl, sym, ap, ◌∙◌, subst, min, true, false, ◌&&◌, ◌⊎◌,
  inl, inr, Option, none, some, List, arith, ltb, leb, ◌==◌, length, ne→==, some_injective,
}
use motown.SparseBuffer.{SparseBuffer}
use motown.SparseBuffer.Spans.{within, extents, size_at}
use motown.SparseBuffer.Laws.{IsValid}
use motown.SparseBuffer.Missing.{StartsBy}
use motown.SparseBuffer.Create.{Created}
use motown.Conversion.Enums.{Result}
use motown.ReaderCache.{
  ReadAtRequest, Completed, start_request, complete, Store, Served, serve_rounds, finish_serving,
  serve_request, set_read_at_request, clamped,
}
use motown.ReaderCache.Found.{Reads}
use motown.ReaderCache.Serve.{IsServing, waits_with, Runs, serve_rounds-Runs}

-- A valid store without an error and without a request, whose intake hole is null or a hole.
pub record IsIdle (s : Store) : Type 0 where
  pub valid : IsValid s.buffer
  pub no_error : s.result ≡ Result.ok
  pub no_request : s.read_request ≡ none
  pub size_same : s.buffer.size ≡ s.size
  pub hint : (h : ℕ) → s.intake_hole ≡ some h → (n : ℕ) × (size_at h s.buffer.holes ≡ some n)

-- The request is completed with all its bytes, and the store has none.
pub record IsComplete (wanted : ℕ) (bytes : List ℕ) (o : Option (Store × Option Completed))
    : Type 0 where
  pub after : Store
  pub all : length bytes ≡ wanted
  pub returns :
      o ≡ some (after, some (record { result = Result.ok; bytes_read = wanted; bytes = bytes }))
  pub no_request : after.read_request ≡ none

-- The request has the bytes that are there and stays; a hole starts at the first that is not, and the
-- intake is told to read it.
pub record IsWaiting (wanted position : ℕ) (bytes : List ℕ) (s : Store)
    (o : Option (Store × Option Completed)) : Type 0 where
  pub after : Store
  pub request : ReadAtRequest
  pub short : length bytes < wanted
  pub outside : within (position + length bytes) (extents s.buffer.regions) ≡ false
  pub returns : o ≡ some (after, none)
  pub kept : after.read_request ≡ some request
  pub held : request.buffer ≡ bytes
  pub valid : IsValid after.buffer
  pub regions_same : after.buffer.regions ≡ s.buffer.regions
  pub read_hole : after.read_hole ≡ some (position + length bytes)
  pub hole : (n : ℕ) × (size_at (position + length bytes) after.buffer.holes ≡ some n)

-- The bytes that the request gets are those of the regions, as far as these reach.
pub record Answered (wanted position : ℕ) (s : Store) (o : Option (Store × Option Completed))
    : Type 0 where
  pub bytes : List ℕ
  pub reads : Reads position bytes s.buffer.regions
  pub ends : IsComplete wanted bytes o ⊎ IsWaiting wanted position bytes s o

-- The store with a new request, of which some bytes are to be read.
abbrev pub asked_for : ℕ → ℕ → ℕ → Store → Store
asked_for position n remaining s = record s {
  read_request = some (start_request position n);
  position = position;
  remaining = remaining;
}

abbrev asked : ℕ → ℕ → Store → Store
asked position n s = asked_for position n (min n (s.size - position)) s

-- A request is cut off at the end of the asset, where the sum in the test does not wrap around.
clamped_lem : (x n size : ℕ) → x < size → x + n < 2 ^ 64 → clamped x n size ≡ min n (size - x)
unfolding clamped
clamped_lem x n size below fits =
    let same : (x + n) % 2 ^ 64 ≡ x + n = omega arith in rw same (ground arith)

pub clamped_positive : (x n size : ℕ) → x < size → 0 < n → 0 < clamped x n size
unfolding clamped
clamped_positive x n size below pos = ground arith

asked-IsServing :
    (x n : ℕ) (s : Store)
    → IsIdle s
    → x < s.size
    → StartsBy x s.buffer.regions
    → IsServing (asked x n s) (start_request x n)
unfolding start_request
asked-IsServing x n s v below starts = record {
  valid = v.valid;
  no_error = v.no_error;
  request = refl;
  room = omega arith;
  in_asset = let same = v.size_same in omega arith;
  starts = starts;
  hint = v.hint;
}

-- Complete, of a request that got bytes, without an error.
complete_ok :
    (wanted : ℕ) (bytes : List ℕ) (u : ReadAtRequest)
    → u.remaining ≤ u.original
    → u.original - u.remaining ≡ wanted
    → 0 < wanted
    → u.buffer ≡ bytes
    → complete Result.ok u
      ≡ some (record { result = Result.ok; bytes_read = wanted; bytes = bytes })
unfolding complete
complete_ok wanted bytes u le read pos same =
    let fits : leb u.remaining u.original ≡ true = ground arith in
    let read_some : (wanted == 0) ≡ false = ne→== wanted 0 (omega arith) in
    rw (fits, read, read_some, same) refl

finish_serving-IsComplete :
    (wanted : ℕ) (bytes : List ℕ) (t : Store) (u : ReadAtRequest)
    → t.result ≡ Result.ok
    → t.read_request ≡ some u
    → u.remaining ≤ u.original
    → u.original - u.remaining ≡ wanted
    → 0 < wanted
    → u.buffer ≡ bytes
    → length bytes ≡ wanted
    → IsComplete wanted bytes (finish_serving (Served.finished t))
unfolding finish_serving
finish_serving-IsComplete wanted bytes t u no_error request le read pos same all =
    let c : Completed = record { result = Result.ok; bytes_read = wanted; bytes = bytes } in
    let done : complete t.result u ≡ some c =
      rw no_error (complete_ok wanted bytes u le read pos same) in
    record {
      after = record t { read_request = none };
      all = all;
      returns = rw (request, done) refl;
      no_request = refl;
    }

waits-IsWaiting :
    (wanted x : ℕ) (bytes : List ℕ) (s t : Store) (u : ReadAtRequest) (b : SparseBuffer)
    → t.position ≡ x + length bytes
    → t.buffer ≡ s.buffer
    → t.read_request ≡ some u
    → u.buffer ≡ bytes
    → length bytes < wanted
    → within t.position (extents t.buffer.regions) ≡ false
    → Created t.position t.buffer (some b)
    → IsWaiting wanted x bytes s (finish_serving (Served.waiting (waits_with b t)))
unfolding finish_serving
waits-IsWaiting wanted x bytes s t u b start same request held short outside c =
    let created : c.after ≡ b = sym (some_injective c.returns) in
    let (n, starts) = c.starts in
    record {
      after = waits_with b t;
      request = u;
      short = short;
      outside = rw⁻¹ (start, same) outside;
      returns = refl;
      kept = request;
      held = held;
      valid = subst IsValid created c.valid;
      regions_same =
          ap (λ z. z.regions) (sym created) ∙ (c.regions_same ∙ ap (λ z. z.regions) same);
      read_hole = ap some start;
      hole = (n, rw⁻¹ (start, created) starts);
    }

asked-Answered :
    (x n : ℕ) (s : Store)
    → 0 < n
    → x < s.size
    → Runs (asked x n s) (start_request x n) (serve_rounds (suc (min n (s.size - x))) (asked x n s))
    → Answered (min n (s.size - x)) x s (serve_request (asked x n s))
unfolding start_request serve_request finish_serving
asked-Answered x n s pos below run =
    let p = run.progress in
    let to_serve = p.to_serve in
    let wanted = min n (s.size - x) in
    record {
      bytes = run.bytes;
      reads = p.reads;
      ends = elim run.ends [
        | inl (none_left, e) ↦ inl (
            rw (e, serve_request)
              (finish_serving-IsComplete wanted run.bytes run.after run.request p.serving.no_error
                p.serving.request (omega (arith, p.left, p.original_same))
                (omega (arith, p.left, p.original_same, p.to_serve, none_left)) (omega arith)
                p.copied (omega (arith, p.to_serve, none_left))))
        | inr (some_left, outside, (b, c, e)) ↦ inr (
            rw (e, serve_request)
              (waits-IsWaiting wanted x run.bytes s run.after run.request b p.advanced p.buffer_same
                p.serving.request p.copied (omega (arith, p.to_serve)) outside c))
      ];
    }

-- A request in the asset is served.
pub set_read_at_request_serves :
    (x n : ℕ) (s : Store)
    → IsIdle s
    → 0 < n
    → x < s.size
    → set_read_at_request (start_request x n) s
      ≡ serve_request (asked_for x n (clamped x n s.size) s)
unfolding set_read_at_request start_request
set_read_at_request_serves x n s v pos below =
    let in_asset : (ltb x s.size && ltb 0 n) ≡ true = ground arith in
    rw (v.no_request, in_asset) refl

-- On a valid store without an error and without a request, with an intake hole that is null or a
-- hole, for a request of one byte or more at a position of the asset that the first region, where
-- there is one, does not lie behind, and whose position and size have a sum below 2 ^ 64,
-- SetReadAtRequest succeeds: the request gets the bytes that the regions hold from its position
-- on. If they are all that is asked for, up to the end of the asset, it is completed with them;
-- else a hole starts at the first that is not there, the read hole is that one, and the request
-- stays with those it got.
pub set_read_at_request-Answered :
    (x n : ℕ) (s : Store)
    → IsIdle s
    → 0 < n
    → x < s.size
    → x + n < 2 ^ 64
    → StartsBy x s.buffer.regions
    → Answered (min n (s.size - x)) x s (set_read_at_request (start_request x n) s)
set_read_at_request-Answered x n s v pos below fits starts =
    let serving = asked-IsServing x n s v below starts in
    let run =
      serve_rounds-Runs (suc (min n (s.size - x))) (asked x n s) (start_request x n) serving
        (omega arith) in
    let serves =
      set_read_at_request_serves x n s v pos below
      ∙ ap (λ k. serve_request (asked_for x n k s)) (clamped_lem x n s.size below fits) in
    subst (Answered (min n (s.size - x)) x s) (sym serves) (asked-Answered x n s pos below run)
