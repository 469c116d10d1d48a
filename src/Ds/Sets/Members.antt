-- ===== src/Ds/Sets/Members.antt =====
-- ds/set/set.go: membership and cardinality after each operation.
use mcache.Prelude.{
  ℕ, ◌+◌, ◌≤◌, ◌<◌, ◌≡◌, refl, true, false, some, List, [], ◌∷◌, ite, length, ◌==◌, ◌&&◌, ◌||◌, not,
  Str, str_dec, is_some, arith, Option-cases, Bool-cases, inl, inr,
}
use mcache.Prelude.Keys.{listed}
use mcache.Prelude.Dict.{
  lookup, insert, delete, IsDistinct, lookup-insert, lookup-delete, insert-IsDistinct,
  delete-IsDistinct, length-insert, length-delete,
}
use mcache.Ds.Sets.{Elements, put_all, is_member, add_loop, add, rem_loop, rem, card, nth_key, pop}

-- A set in which no element stands twice, which every operation keeps.
abbrev pub IsSound : Elements → Type 0
IsSound s = IsDistinct str_dec s

pub is_member-insert :
    (q e : Str) (s : Elements)
    → is_member (insert str_dec e tt s) q ≡ ite (str_dec e q) true (is_member s q)
unfolding is_member
is_member-insert q e s = ground (arith, lookup-insert str_dec e q tt s)

pub is_member-delete :
    (q e : Str) (s : Elements)
    → is_member (delete str_dec e s) q ≡ ite (str_dec e q) false (is_member s q)
unfolding is_member
is_member-delete q e s = ground (arith, lookup-delete str_dec e q s)

pub is_member-put_all :
    (q : Str) (es : List Str) (s : Elements)
    → is_member (put_all s es) q ≡ (listed q es || is_member s q)
unfolding put_all listed
is_member-put_all q [] s = refl
is_member-put_all q (e ∷ es) s =
    ground (arith, is_member-put_all q es (insert str_dec e tt s), is_member-insert q e s)

pub put_all-IsSound : (es : List Str) (s : Elements) → IsSound s → IsSound (put_all s es)
unfolding put_all
put_all-IsSound [] s d = d
put_all-IsSound (e ∷ es) s d =
    put_all-IsSound es (insert str_dec e tt s) (insert-IsDistinct str_dec e tt s d)

-- What a call that adds `es` leaves, when `n` were counted before it.
record Added (s : Elements) (n : ℕ) (es : List Str) (out : Elements × ℕ) (q : Str) : Type 0 where
  member : is_member out.0 q ≡ (listed q es || is_member s q)
  counted : out.1 + card s ≡ n + card out.0
  sound : IsSound out.0

add_loop-Added :
    (es : List Str) (s : Elements) (n : ℕ) (q : Str) → IsSound s → Added s n es (add_loop s n es) q
unfolding add_loop listed is_member card
add_loop-Added [] s n q d = record { member = refl; counted = refl; sound = d }
add_loop-Added (e ∷ es) s n q d = elim (Option-cases (lookup str_dec e s)) [
  | inl new ↦
      let a =
        add_loop-Added es (insert str_dec e tt s) (n + 1) q (insert-IsDistinct str_dec e tt s d) in
      rw new (record {
        member = ground (arith, a.member, lookup-insert str_dec e q tt s);
        counted = ground (arith, a.counted, length-insert str_dec e tt s);
        sound = a.sound;
      })
  | inr (u, old) ↦
      let a = add_loop-Added es s n q d in
      rw old (record { member = ground (arith, a.member); counted = a.counted; sound = a.sound })
]

-- On a set without double entries, `Add` returns how many elements it added: the cardinality grows by that. Afterwards the members
-- are the old ones and the arguments, each once.
add_lem :
    (s : Elements) (es : List Str) (q : Str)
    → IsSound s
    → let (s', n) = add s es in
      (is_member s' q ≡ (listed q es || is_member s q)) × (card s' ≡ card s + n) × IsSound s'
unfolding add
add_lem s es q d =
    let a = add_loop-Added es s 0 q d in (a.member, omega (arith, a.counted), a.sound)

-- What a call that removes `es` leaves, when `n` were counted before it.
record Taken (s : Elements) (n : ℕ) (es : List Str) (out : Elements × ℕ) (q : Str) : Type 0 where
  member : is_member out.0 q ≡ (not (listed q es) && is_member s q)
  counted : out.1 + card out.0 ≡ n + card s
  sound : IsSound out.0

rem_loop-Taken :
    (es : List Str) (s : Elements) (n : ℕ) (q : Str) → IsSound s → Taken s n es (rem_loop s n es) q
unfolding rem_loop listed is_member card
rem_loop-Taken [] s n q d = record { member = refl; counted = refl; sound = d }
rem_loop-Taken (e ∷ es) s n q d = elim (Option-cases (lookup str_dec e s)) [
  | inl absent ↦
      let a = rem_loop-Taken es s n q d in
      rw absent (record { member = ground (arith, a.member); counted = a.counted; sound = a.sound })
  | inr (u, old) ↦
      let a = rem_loop-Taken es (delete str_dec e s) (n + 1) q (delete-IsDistinct str_dec e s d) in
      rw old (record {
        member = ground (arith, a.member, lookup-delete str_dec e q s);
        counted = ground (arith, a.counted, length-delete str_dec e s d);
        sound = a.sound;
      })
]

-- On a set without double entries, `Rem` returns how many elements it removed: the cardinality falls by that. Afterwards the
-- members are the old ones without the arguments.
pub rem_lem :
    (s : Elements) (es : List Str) (q : Str)
    → IsSound s
    → let (s', n) = rem s es in
      (is_member s' q ≡ (not (listed q es) && is_member s q)) × (card s' + n ≡ card s) × IsSound s'
unfolding rem
rem_lem s es q d =
    let a = rem_loop-Taken es s 0 q d in (a.member, omega (arith, a.counted), a.sound)

nth_key-some :
    (s : Elements) (i n : ℕ)
    → i ≤ n
    → n < i + length s
    → (e : Str) × (nth_key i n s ≡ some e) × (is_some (lookup str_dec e s) ≡ true)
unfolding nth_key lookup
nth_key-some [] i n h k = absurd (omega arith)
nth_key-some (x ∷ s) i n h k = elim (Bool-cases (i == n)) [
  | inl here ↦ (x.0, rw here, ground arith)
  | inr later ↦
      let (e, found, there) = nth_key-some s (i + 1) n (ground arith) (omega arith) in
      (e, rw later found, ground arith)
]

-- `Pop` on a set without double entries that is not empty, whatever index below the cardinality is drawn, returns a
-- member and removes it and nothing else.
pop_lem :
    (s : Elements) (n : ℕ) (q : Str)
    → IsSound s
    → n < card s
    → (s' : Elements) × (e : Str) × (pop n s ≡ (s', some e))
      × (is_member s e ≡ true)
      × (is_member s' q ≡ ite (str_dec e q) false (is_member s q))
      × (card s' + 1 ≡ card s)
      × IsSound s'
unfolding pop card is_member
pop_lem s n q d h =
    let (e, found, there) = nth_key-some s 0 n (omega arith) (omega arith) in
    (
      delete str_dec e s,
      e,
      ground arith,
      there,
      ground (arith, lookup-delete str_dec e q s),
      ground (arith, length-delete str_dec e s d),
      delete-IsDistinct str_dec e s d,
    )
