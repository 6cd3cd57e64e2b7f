-- ===== src/Reader/Cursor.antt =====
-- Where a Reader stands: the bytes between its position and its bound.
use gsbm.Common.{ℕ, ◌+◌, ◌-◌, ◌^◌, ◌<◌, ◌≡◌, refl, sym, ap, ◌∙◌, none, List, ◌++◌, arith}
use gsbm.Common.{
  length, take, drop, length-take, length-drop, length-append, drop-drop, drop_prefix, take_prefix,
  take-drop-take,
}
use gsbm.Errors.{ok}
use gsbm.Varint.Encoding.{varint, length-varint}
use gsbm.Varint.Loops.{read_uvarint-decode}
use gsbm.Varint.RoundTrip.{decode-varint}
use gsbm.Reader.State.{Reader, IsValid, Outcome, next_uvarint, peek, unread, guarded, guarded_by}

-- A Reader without an error whose current region starts with `bs` and goes on with `rest`.
pub record At (r : Reader) (bs rest : List ℕ) : Type 0 where
  pub live : r.err ≡ none
  pub valid : IsValid r
  pub ahead : unread r ≡ bs ++ rest

pub length-unread : (r : Reader) → IsValid r → length (unread r) ≡ r.end - r.pos
length-unread r v =
    omega
      (arith, length-drop r.pos (take r.end r.buf), length-take r.end r.buf, v.before_end, v.inside)

-- Without a sticky error the guard is passed.
pub guarded-live : {A : Type 0} (r : Reader) (o : Outcome A) → r.err ≡ none → guarded r o ≡ o
guarded-live r o live = ap (λ x. guarded_by x r o) live

abbrev pub advanced : Reader → ℕ → Reader
advanced r n = record r { pos = r.pos + n }

module _ {r : Reader} (bs rest : List ℕ) (a : At r bs rest) where
  pub At-room : r.pos + (length bs + length rest) ≡ r.end
  At-room = omega (
    arith,
    length-unread r a.valid,
    a.valid.before_end,
    ap (λ (xs : List ℕ). length xs) a.ahead,
    length-append bs rest,
  )

  -- Past `bs` the Reader stands at the rest.
  pub At-advanced :
      (more : List ℕ) (tail : List ℕ) → rest ≡ more ++ tail → At (advanced r (length bs)) more tail
  At-advanced more tail e = record {
    live = a.live;
    valid = record { before_end = omega (arith, At-room); inside = a.valid.inside };
    ahead =
        sym (drop-drop (length bs) r.pos (take r.end r.buf))
        ∙ ap (λ xs. drop (length bs) xs) a.ahead
        ∙ drop_prefix (length bs) bs rest refl
        ∙ e;
  }

  pub At-peek : peek r (length bs) ≡ bs
  At-peek =
      sym (take-drop-take (length bs) r.pos r.end r.buf (omega (arith, At-room)))
      ∙ ap (λ xs. take (length bs) xs) a.ahead
      ∙ take_prefix (length bs) bs rest refl

pub next_uvarint-varint :
    (r : Reader) (v : ℕ) (rest : List ℕ)
    → v < 2 ^ 64
    → At r (varint v) rest
    → next_uvarint r ≡ (ok v, advanced r (length (varint v)))
unfolding next_uvarint
next_uvarint-varint r v rest h a =
    rw (read_uvarint-decode, a.ahead, decode-varint v rest h, length-varint v h)
