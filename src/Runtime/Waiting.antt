-- ===== src/Runtime/Waiting.antt =====
-- The status queue replaces updates of one tag or server, and loses no message.
use mathlib.Core.Path.{subst}
use mathlib.Core.List.{append-nil, append_assoc}
use iot_gathering.Common.{
  ℕ, String, ◌≤◌, Bool, true, false, Bool-cases, List, [], ◌∷◌, ◌++◌, ◌≡◌, refl, sym, ap, ◌∙◌, inl,
  inr, arith, ltb, leb, All-mono, ◌==◌,
}
use iot_gathering.Common.Dict.{Dict, remove, put_last, Entries, put_last-Entries, values}
use iot_gathering.Runtime.Queues.{
  StatusItem, tag_update, server_status, message, StatusKey, tag_key, server_key, event_key,
  status_key, status_key_eq, StatusQueue, put_status,
}

-- The messages of a row of items.
abbrev pub texts_of : StatusItem → List String
texts_of (message s) = s ∷ []
texts_of _ = []

unfoldable pub texts : List StatusItem → List String
texts [] = []
texts (item ∷ items) = texts_of item ++ texts items

-- An entry has the kind of its key, and the number of a message was given before.
abbrev pub fits : ℕ → StatusKey → StatusItem → Bool
fits sequence (tag_key a b) (tag_update u) = true
fits sequence (server_key a) (server_status s) = true
fits sequence (event_key n) (message s) = leb n sequence
fits sequence _ _ = false

abbrev pub IsNumbered : StatusQueue → Type 0
IsNumbered queue = Entries (λ k i. fits queue.sequence k i ≡ true) queue.items

-- The keys that no message has.
abbrev is_free : ℕ → StatusKey → Bool
is_free sequence (event_key n) = ltb sequence n
is_free sequence _ = true

free_fits :
    (sequence : ℕ) (key : StatusKey) (item : StatusItem)
    → is_free sequence key ≡ true
    → fits sequence key item ≡ true
    → texts_of item ≡ []
free_fits sequence (tag_key a b) (tag_update u) f h = refl
free_fits sequence (tag_key a b) (server_status u) f h = refl
free_fits sequence (tag_key a b) (message u) f h = absurd (cc h)
free_fits sequence (server_key a) (tag_update u) f h = refl
free_fits sequence (server_key a) (server_status u) f h = refl
free_fits sequence (server_key a) (message u) f h = absurd (cc h)
free_fits sequence (event_key a) (tag_update u) f h = refl
free_fits sequence (event_key a) (server_status u) f h = refl
free_fits sequence (event_key a) (message u) f h = ground arith

texts-remove :
    (sequence : ℕ) (d : Dict StatusKey StatusItem) (key : StatusKey)
    → is_free sequence key ≡ true
    → Entries (λ k i. fits sequence k i ≡ true) d
    → texts (values (remove d key)) ≡ texts (values d)
unfolding texts remove
texts-remove sequence [] key f h = refl
texts-remove sequence ((k, item) ∷ d) key f h = elim (Bool-cases (k == key)) [
  | inl same ↦ rw same (
      texts-remove sequence d key f h.1
      ∙ ap (λ ts. ts ++ texts (values d))
          (sym (
            free_fits sequence key item f (
              subst (λ j. fits sequence j item ≡ true) ((status_key_eq.beq_iff k key).0 same)
                h.0))))
  | inr other ↦ rw other (ap (λ ts. texts_of item ++ ts) (texts-remove sequence d key f h.1))
]

texts-append : (xs ys : List StatusItem) → texts (xs ++ ys) ≡ texts xs ++ texts ys
unfolding texts
texts-append [] ys = refl
texts-append (x ∷ xs) ys =
    ap (λ ts. texts_of x ++ ts) (texts-append xs ys)
    ∙ sym (append_assoc (texts_of x) (texts xs) (texts ys))

values-append : (d c : Dict StatusKey StatusItem) → values (d ++ c) ≡ values d ++ values c
values-append [] c = refl
values-append (p ∷ d) c = ap (λ vs. p.1 ∷ vs) (values-append d c)

status_key-is_free : (n : ℕ) (item : StatusItem) → is_free n (status_key n item).0 ≡ true
status_key-is_free n (tag_update u) = refl
status_key-is_free n (server_status s) = refl
status_key-is_free n (message s) = ground arith

status_key-fits :
    (n : ℕ) (item : StatusItem) → fits (status_key n item).1 (status_key n item).0 item ≡ true
status_key-fits n (tag_update u) = refl
status_key-fits n (server_status s) = refl
status_key-fits n (message s) = ground arith

status_key-grows : (n : ℕ) (item : StatusItem) → n ≤ (status_key n item).1
status_key-grows n (tag_update u) = omega arith
status_key-grows n (server_status s) = omega arith
status_key-grows n (message s) = omega arith

fits-later :
    (m n : ℕ) (key : StatusKey) (item : StatusItem)
    → m ≤ n
    → fits m key item ≡ true
    → fits n key item ≡ true
fits-later m n (event_key k) (message s) l h = ground arith
fits-later m n (event_key k) (tag_update u) l h = h
fits-later m n (event_key k) (server_status u) l h = h
fits-later m n (tag_key a b) (tag_update u) l h = h
fits-later m n (tag_key a b) (server_status u) l h = h
fits-later m n (tag_key a b) (message s) l h = h
fits-later m n (server_key a) (tag_update u) l h = h
fits-later m n (server_key a) (server_status u) l h = h
fits-later m n (server_key a) (message s) l h = h

texts_one : (item : StatusItem) → texts (item ∷ []) ≡ texts_of item
unfolding texts
texts_one item = append-nil (texts_of item)

-- Where every message in a queue has a number that was given before, a put of any item keeps every message
-- in its place in the order, adds the item at the end if it is a message, and leaves such a queue.
pub put_status-texts :
    (queue : StatusQueue) (item : StatusItem)
    → IsNumbered queue
    → (texts (values (put_status queue item).items) ≡ texts (values queue.items) ++ texts_of item)
      × IsNumbered (put_status queue item)
unfolding put_status put_last
put_status-texts queue item h =
    let n = queue.sequence in
    let key = (status_key n item).0 in
    (
      rw
          (
            values-append (remove queue.items key) ((key, item) ∷ []),
            texts-append,
            texts-remove n queue.items key (status_key-is_free n item) h,
          )
          (ap (λ ts. texts (values queue.items) ++ ts) (texts_one item)),
      put_last-Entries _ queue.items key item (status_key-fits n item) (
          All-mono _ _ queue.items
            (λ p f. fits-later n (status_key n item).1 p.0 p.1 (status_key-grows n item) f) h),
    )
