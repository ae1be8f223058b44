-- ===== src/ReaderCache/Fault.antt =====
-- A request in front of the first region.
use motown.Base.{ℕ, ◌<◌, ◌≡◌, refl, ◌∙◌, false, ◌||◌, not, none, List, ◌∷◌, arith, ◌==◌}
use motown.SparseBuffer.Regions.{find_region_containing_first}
use motown.ReaderCache.{
  is_ok, start_request, Store, copy_region, copy_found, serve_rounds, serve_request,
  set_read_at_request, clamped,
}
use motown.ReaderCache.Answer.{IsIdle, asked_for, clamped_positive, set_read_at_request_serves}

copy_found_in_front : (k : ℕ) (s : Store) → s.position < k → copy_found k s ≡ none
unfolding copy_found copy_region
copy_found_in_front k s lt = ground arith

-- On a valid store without an error and without a request, with an intake hole that is null or a
-- hole, a request of one byte or more at a position of the asset that lies in front of the first
-- region makes SetReadAtRequest fail.
pub set_read_at_request_fails :
    (x n p : ℕ) (bytes : List ℕ) (rest : List (ℕ × List ℕ)) (s : Store)
    → IsIdle s
    → 0 < n
    → x < s.size
    → s.buffer.regions ≡ (p, bytes) ∷ rest
    → x < p
    → set_read_at_request (start_request x n) s ≡ none
unfolding serve_request serve_rounds start_request
set_read_at_request_fails x n p bytes rest s v pos below first lt =
    let more : (not (is_ok s.result) || (clamped x n s.size == 0)) ≡ false =
      let left = clamped_positive x n s.size below pos in rw v.no_error (ground arith) in
    let (found, outside) =
      find_region_containing_first x p bytes rest s.read_region s.buffer v.valid.regions_ordered
        first lt in
    let fails = copy_found_in_front p (asked_for x n (clamped x n s.size) s) lt in
    let none_served : serve_request (asked_for x n (clamped x n s.size) s) ≡ none =
      rw (more, found, fails, serve_request, serve_rounds) refl in
    set_read_at_request_serves x n s v pos below ∙ none_served
