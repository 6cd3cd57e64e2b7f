-- ===== src/Reader/State.antt =====
-- The Reader of storage/gsbm/reader.go: its state and what every method shares.
use gsbm.Common.{ℕ, ◌+◌, ◌≤◌, Bool, Option, none, some, List, length, take, drop, ltb, ◌&&◌, not}
use gsbm.Errors.{Error, Result, ok}
use gsbm.Varint.{read_uvarint}
use gsbm.Writer.State.{failed, first_error}

-- An Allocator: the string that it makes of the bytes it is handed.
pub record Allocator : Type 0 where
  pub acquire : List ℕ → List ℕ

-- `end` is the exclusive end of the current bounded region. `pos` and `end` are ints that are never
-- negative; `end - pos` stops at 0 here, and `IsValid` rules the case out.
pub record Reader : Type 0 where
  pub buf : List ℕ
  pub pos : ℕ
  pub end : ℕ
  pub err : Option Error
  pub alloc : Option Allocator

-- NewReader
abbrev pub new_reader : List ℕ → Reader
new_reader src = record { buf = src; pos = 0; end = length src; err = none; alloc = none }

-- SetAllocator
abbrev pub set_allocator : Reader → Option Allocator → Reader
set_allocator r a = record r { alloc = a }

-- BorrowSource
abbrev pub borrow_source : Reader → List ℕ
borrow_source r = r.buf

-- Reset keeps the allocator.
abbrev pub reset : Reader → List ℕ → Reader
reset r src = record r { buf = src; pos = 0; end = length src; err = none }

-- HasMore
unfoldable pub has_more : Reader → Bool
has_more r = not (failed r.err) && ltb r.pos r.end

-- setErr: the first error stays.
unfoldable pub set_err : Reader → Error → Reader
set_err r e = record r { err = first_error r.err e }

-- What a method returns, and the Reader that it leaves.
abbrev pub Outcome : Type 0 → Type 0
Outcome A = Result A × Reader

abbrev pub sticky : Option Error → Error → Error
sticky none e = e
sticky (some x) e = x

-- `r.setErr(e); return ..., r.err`
unfoldable pub fail : {A : Type 0} → Reader → Error → Outcome A
fail r e = (Result.err (sticky r.err e), set_err r e)

abbrev pub after : {A B : Type 0} → Outcome A → (A → Reader → Outcome B) → Outcome B
after (ok a, r) k = k a r
after (Result.err e, r) k = (Result.err e, r)

abbrev pub guarded_by : {A : Type 0} → Option Error → Reader → Outcome A → Outcome A
guarded_by none r k = k
guarded_by (some e) r k = (Result.err e, r)

-- `if r.err != nil { return ..., r.err }`
abbrev pub guarded : {A : Type 0} → Reader → Outcome A → Outcome A
guarded r k = guarded_by r.err r k

abbrev pub consumed : Reader → Result (ℕ × ℕ) → Outcome ℕ
consumed r (ok (v, n)) = (ok v, record r { pos = r.pos + n })
consumed r (Result.err e) = (Result.err e, set_err r e)

-- readUvarint, the method: it does not test the sticky error.
unfoldable pub next_uvarint : Reader → Outcome ℕ
next_uvarint r = consumed r (read_uvarint (take r.end r.buf) r.pos)

-- The bytes between the position and the bound.
abbrev pub unread : Reader → List ℕ
unread r = drop r.pos (take r.end r.buf)

-- `r.buf[r.pos : r.pos+n]`
abbrev pub peek : Reader → ℕ → List ℕ
peek r n = take n (drop r.pos r.buf)

-- The Reader's indices are in order and inside its buffer, so that none of its slice expressions is
-- out of range.
pub record IsValid (r : Reader) : Type 0 where
  pub before_end : r.pos ≤ r.end
  pub inside : r.end ≤ length r.buf
