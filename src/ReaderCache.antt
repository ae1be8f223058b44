-- ===== src/ReaderCache.antt =====
-- ReaderCache of services/media/framework/parts/reader_cache.{h,cc}: its request, its store and what
-- its intake does with a read, on top of SparseBuffer. A failed DCHECK is `none`.
pub mod Found
pub mod Serve
pub mod Answer
pub mod Fault
mod Tests
use motown.Base.{
  ℕ, zero, suc, ◌+◌, ◌-◌, ◌*◌, ◌%◌, ◌^◌, min, Bool, true, false, ◌&&◌, ◌||◌, not, Option, none,
  some, List, [], ◌∷◌, ◌++◌, ltb, leb, ◌==◌, length, take, drop, if◌then◌else◌,
}
use motown.SparseBuffer.{
  SparseBuffer, initialize, find_hole_containing, find_region_containing, find_or_create_hole, fill,
}
use motown.SparseBuffer.Spans.{size_at}
use motown.Conversion.Enums.{Result}

abbrev pub is_ok : Result → Bool
is_ok Result.ok = true
is_ok _ = false

-- ReadAtRequest in progress: the client's buffer is the bytes that were copied into it so far.
pub record ReadAtRequest : Type 0 where
  pub position : ℕ
  pub buffer : List ℕ
  pub original : ℕ
  pub remaining : ℕ

-- The call of the client's callback, with the bytes in its buffer.
pub record Completed : Type 0 where
  pub result : Result
  pub bytes_read : ℕ
  pub bytes : List ℕ

-- Start.
pub start_request : ℕ → ℕ → ReadAtRequest
start_request position bytes_to_read = record {
  position = position;
  buffer = [];
  original = bytes_to_read;
  remaining = bytes_to_read;
}

-- CopyFrom.
pub copy_from : List ℕ → ReadAtRequest → Option ReadAtRequest
copy_from source r =
    if leb (length source) r.remaining
    then some (record r {
      position = r.position + length source;
      buffer = r.buffer ++ source;
      remaining = r.remaining - length source;
    })
    else none

-- Complete.
pub complete : Result → ReadAtRequest → Option Completed
complete result r =
    let bytes_read = r.original - r.remaining in
    if leb r.remaining r.original && (if bytes_read == 0 then not (is_ok result) else is_ok result)
    then some (record { result = result; bytes_read = bytes_read; bytes = r.buffer })
    else none

-- The store. An iterator is the key of its entry, and `none` is the null hole or region.
pub record Store : Type 0 where
  pub size : ℕ
  pub can_seek : Bool
  pub result : Result
  pub buffer : SparseBuffer
  pub intake_hole : Option ℕ
  pub read_hole : Option ℕ
  pub read_region : Option ℕ
  pub read_request : Option ReadAtRequest
  pub position : ℕ
  pub remaining : ℕ

-- Store::Initialize.
pub initialize_store : Result → ℕ → Bool → Store
initialize_store result size can_seek = record {
  size = size;
  can_seek = can_seek;
  result = result;
  buffer = initialize size;
  intake_hole = find_hole_containing 0 (initialize size);
  read_hole = none;
  read_region = none;
  read_request = none;
  position = 0;
  remaining = 0;
}

-- The bytes of the region that starts at `k`.
abbrev pub region_at : ℕ → List (ℕ × List ℕ) → List ℕ
region_at k [] = []
region_at k ((p, s) ∷ rest) = if p == k then s else region_at k rest

-- The copy of ServeRequest from the region that starts at `k`.
pub copy_region : ℕ → List ℕ → Store → ReadAtRequest → Option Store
copy_region k bytes s r =
    let count = min (k + length bytes - s.position) s.remaining in
    let copied = copy_from (take count (drop (s.position - k) bytes)) r in
    if leb k s.position && ltb s.position (k + length bytes)
    then elim copied as (λ o. Option Store) [
      | none ↦ none
      | some r' ↦ some (record s {
        read_region = some k;
        read_request = some r';
        position = s.position + count;
        remaining = s.remaining - count;
      })
    ]
    else none

-- How the loop of ServeRequest ends.
pub data Served : Type 0 where
  waiting : Store → Served
  finished : Store → Served

-- The exit of the loop at a position that no region holds.
pub wait_for_intake : Store → Option Served
wait_for_intake s =
    elim (find_or_create_hole s.position s.intake_hole s.buffer) as (λ o. Option Served) [
      | none ↦ none
      | some b ↦ some (
          Served.waiting (record s { buffer = b; read_hole = some s.position; read_region = none }))
    ]

-- The copy of ServeRequest, through the pointer to the request.
pub copy_found : ℕ → Store → Option Store
copy_found k s = elim s.read_request as (λ o. Option Store) [
  | none ↦ none
  | some r ↦ copy_region k (region_at k s.buffer.regions) s r
]

-- The loop of ServeRequest.
pub serve_rounds : ℕ → Store → Option Served
serve_rounds zero s = none
serve_rounds (suc fuel) s =
    if not (is_ok s.result) || (s.remaining == 0)
    then some (Served.finished s)
    else elim (find_region_containing s.position s.read_region s.buffer) as (λ o. Option Served) [
      | none ↦ wait_for_intake s
      | some k ↦ elim (copy_found k s) as (λ o. Option Served) [
        | none ↦ none
        | some s' ↦ serve_rounds fuel s'
      ]
    ]

-- ServeRequest from the end of its loop on.
pub finish_serving : Served → Option (Store × Option Completed)
finish_serving (Served.waiting s) = some (s, none)
finish_serving (Served.finished s) =
    elim s.read_request as (λ o. Option (Store × Option Completed)) [
      | none ↦ none
      | some r ↦ elim (complete s.result r) as (λ o. Option (Store × Option Completed)) [
        | none ↦ none
        | some c ↦ some (record s { read_request = none }, some c)
      ]
    ]

-- ServeRequest: each round of its loop copies a byte or more.
pub serve_request : Store → Option (Store × Option Completed)
serve_request s =
    elim (serve_rounds (suc s.remaining) s) as (λ o. Option (Store × Option Completed)) [
      | none ↦ none
      | some served ↦ finish_serving served
    ]

-- The bytes that SetReadAtRequest is to read: its test adds two numbers of type size_t.
pub clamped : ℕ → ℕ → ℕ → ℕ
clamped position n size = if ltb size ((position + n) % 2 ^ 64) then size - position else n

-- SetReadAtRequest.
pub set_read_at_request : ReadAtRequest → Store → Option (Store × Option Completed)
set_read_at_request r s = elim s.read_request as (λ o. Option (Store × Option Completed)) [
  | some pending ↦ none
  | none ↦
      if ltb r.position s.size && ltb 0 r.remaining
      then serve_request (record s {
        read_request = some r;
        position = r.position;
        remaining = clamped r.position r.remaining s.size;
      })
      else none
]

-- kDefaultReadSize.
abbrev pub default_read_size : ℕ
default_read_size = 32 * 1024

-- GetIntakePositionAndSize from its last test on, for a hole and a size.
pub intake_from : ℕ → ℕ → Store → Option (Store × Option (ℕ × ℕ))
intake_from k size s = elim (size_at k s.buffer.holes) as (λ o. Option (Store × Option (ℕ × ℕ))) [
  | none ↦ none
  | some n ↦ some (s, some (k, min size n))
]

-- GetIntakePositionAndSize.
pub get_intake_position_and_size : Store → Option (Store × Option (ℕ × ℕ))
get_intake_position_and_size s = elim s.read_hole as (λ o. Option (Store × Option (ℕ × ℕ))) [
  | some k ↦ elim s.read_request as (λ o. Option (Store × Option (ℕ × ℕ))) [
    | none ↦ none
    | some r ↦ intake_from k s.remaining (record s { intake_hole = some k; read_hole = none })
  ]
  | none ↦ elim s.intake_hole as (λ o. Option (Store × Option (ℕ × ℕ))) [
    | none ↦ some (s, none)
    | some k ↦ intake_from k default_read_size s
  ]
]

-- The end of PutIntakeBuffer and of ReportIntakeError.
pub serve_pending : Store → Option (Store × Option Completed)
serve_pending s = elim s.read_request as (λ o. Option (Store × Option Completed)) [
  | none ↦ some (s, none)
  | some r ↦ serve_request s
]

-- The read hole after the bytes from `position` on have come.
pub unless_covered : ℕ → ℕ → Option ℕ → Option ℕ
unless_covered position n none = none
unless_covered position n (some k) = if leb position k && ltb k (position + n) then none else some k

-- PutIntakeBuffer from its checks on.
pub put_checked : ℕ → List ℕ → Store → Option (Store × Option Completed)
put_checked position bytes s =
    elim (fill position bytes s.buffer) as (λ o. Option (Store × Option Completed)) [
      | none ↦ none
      | some (b, next) ↦ serve_pending (record s {
        buffer = b;
        intake_hole = next;
        read_hole = unless_covered position (length bytes) s.read_hole;
      })
    ]

-- PutIntakeBuffer.
pub put_intake_buffer : ℕ → List ℕ → Store → Option (Store × Option Completed)
put_intake_buffer position bytes s =
    elim s.intake_hole as (λ o. Option (Store × Option Completed)) [
      | none ↦ none
      | some k ↦ elim (size_at k s.buffer.holes) as (λ o. Option (Store × Option Completed)) [
        | none ↦ none
        | some n ↦
            if (position == k) && not (length bytes == 0) && leb (length bytes) n
            then put_checked position bytes s
            else none
      ]
    ]

-- ReportIntakeError.
pub report_intake_error : Result → Store → Option (Store × Option Completed)
report_intake_error result s =
    if is_ok result then none else serve_pending (record s { result = result })

-- The callback of Continue: the buffer has the size that was asked for, whatever was read.
pub read_done : ℕ → List ℕ → Result → ℕ → Store → Option (Store × Option Completed)
read_done position bytes result bytes_read s =
    if not (is_ok result)
    then report_intake_error result s
    else if bytes_read == 0
    then none
    else put_intake_buffer position bytes s
