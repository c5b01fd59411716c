-- ===== src/Modbus/Named.antt =====
-- What `_read_tags_grouped` returns: one result for each tag, under the tag's name.
use iot_gathering.Common.{
  ℕ, suc, String, ℤ, pos, Bool, true, false, Bool-cases, Option-cases, Option, none, some, List, [],
  ◌∷◌, map, length, ◌≡◌, ◌≢◌, refl, sym, ◌∙◌, inl, inr, ◌==◌, if◌then◌else◌, string_eq, arith, All,
  All-append, All-mono, beq_self,
}
use iot_gathering.Common.Json.{Json}
use iot_gathering.Common.Dict.{Dict, get, put, get-put}
use iot_gathering.Common.Float.{Floats}
use iot_gathering.Common.Result.{Result, ok, err, >>=-ok, ok_injective}
use iot_gathering.Models.{DeviceSpec, TagSpec, TagResult}
use iot_gathering.Modbus.Blocks.{ReadBlock, plan_blocks, max_counts_from_connection}
use iot_gathering.Modbus.Partition.{block_tags}
use iot_gathering.Modbus.Reading.{
  Reply, response, raised, Results, tag_result, register_value, bit_value, put_each,
  decode_register_block, decode_bit_block, read_block, update, read_blocks, result_of, results_of,
  bad_results, read_tags_grouped, int_setting,
}

-- The results stand under their names.
abbrev AreNamed : Results → Type 0
AreNamed d = All (λ p. p.1.name ≡ p.0) d

abbrev pub Has : Results → String → Type 0
Has d n = get d n ≢ none

put-AreNamed :
    (d : Results) (n : String) (r : TagResult) → r.name ≡ n → AreNamed d → AreNamed (put d n r)
unfolding put
put-AreNamed [] n r e h = (e, tt)
put-AreNamed ((m, s) ∷ d) n r e h = elim (Bool-cases (m == n)) [
  | inl same ↦ rw same (e ∙ sym ((string_eq.beq_iff m n).0 same), h.1)
  | inr other ↦ rw other (h.0, put-AreNamed d n r e h.1)
]

get-AreNamed :
    (d : Results) (n : String) (r : TagResult) → AreNamed d → get d n ≡ some r → r.name ≡ n
unfolding get
get-AreNamed [] n r h e = cc
get-AreNamed ((m, s) ∷ d) n r h e = ground (arith, string_eq.beq_iff m n, get-AreNamed d n r h.1)

Has-put : (d : Results) (n m : String) (r : TagResult) → Has d m → Has (put d n r) m
Has-put d n m r h = rw get-put (ground arith)

Has-put_self : (d : Results) (n : String) (r : TagResult) → Has (put d n r) n
Has-put_self d n r = rw get-put (ground (arith, beq_self string_eq n))

module _ (result : TagSpec → TagResult) where
  put_each-AreNamed :
      (d : Results) (tags : List TagSpec)
      → ((tag : TagSpec) → (result tag).name ≡ tag.name)
      → AreNamed d
      → AreNamed (put_each result d tags)
  unfolding put_each
  put_each-AreNamed d [] e h = h
  put_each-AreNamed d (tag ∷ tags) e h =
      put_each-AreNamed (put d tag.name (result tag)) tags e
        (put-AreNamed d tag.name (result tag) (e tag) h)

  Has-put_each :
      (d : Results) (tags : List TagSpec) (n : String) → Has d n → Has (put_each result d tags) n
  unfolding put_each
  Has-put_each d [] n h = h
  Has-put_each d (tag ∷ tags) n h =
      Has-put_each (put d tag.name (result tag)) tags n (Has-put d tag.name n (result tag) h)

  put_each-Has :
      (d : Results) (tags : List TagSpec) → All (λ t. Has (put_each result d tags) t.name) tags
  unfolding put_each
  put_each-Has d [] = tt
  put_each-Has d (tag ∷ tags) = (
    Has-put_each (put d tag.name (result tag)) tags tag.name (Has-put_self d tag.name (result tag)),
    put_each-Has (put d tag.name (result tag)) tags,
  )

update-AreNamed : (d other : Results) → AreNamed d → AreNamed other → AreNamed (update d other)
unfolding update
update-AreNamed d [] h k = h
update-AreNamed d ((n, r) ∷ other) h k =
    update-AreNamed (put d n r) other (put-AreNamed d n r k.0 h) k.1

Has-update : (d other : Results) (n : String) → Has d n → Has (update d other) n
unfolding update
Has-update d [] n h = h
Has-update d ((m, r) ∷ other) n h = Has-update (put d m r) other n (Has-put d m n r h)

update-Has : (d other : Results) (n : String) → Has other n → Has (update d other) n
unfolding update get
update-Has d [] n h = absurd (h refl)
update-Has d ((m, r) ∷ other) n h = elim (Bool-cases (m == n)) [
  | inl e ↦
      let same = (string_eq.beq_iff m n).0 e in
      Has-update (put d m r) other n (rw (← same) (Has-put_self d m r))
  | inr e ↦ update-Has (put d m r) other n (rw e at h)
]

tag_result-name :
    (tag : TagSpec) (timestamp : ℕ) (r : Result Json) → (tag_result tag timestamp r).name ≡ tag.name
tag_result-name tag timestamp (ok v) = refl
tag_result-name tag timestamp (err e) = refl

-- Whatever the reply, the results of a block are one for each of its tags, under its name.
record IsPerTag (results : Results) (tags : List TagSpec) : Type 0 where
  result : TagSpec → TagResult
  named : (tag : TagSpec) → (result tag).name ≡ tag.name
  each : results ≡ put_each result [] tags

per_tag :
    (f : TagSpec → TagResult) (tags : List TagSpec)
    → ((tag : TagSpec) → (f tag).name ≡ tag.name)
    → IsPerTag (put_each f [] tags) tags
per_tag f tags n = record { result = f; named = n; each = refl }

IsPerTag-if :
    (b : Bool) {x y : Results} (tags : List TagSpec)
    → IsPerTag x tags
    → IsPerTag y tags
    → IsPerTag (if b then x else y) tags
IsPerTag-if true tags h k = h
IsPerTag-if false tags h k = k

IsPerTag-failure :
    (o : Option String) (y : Results) (x : String → Results) (tags : List TagSpec)
    → ((e : String) → IsPerTag (x e) tags)
    → IsPerTag y tags
    → IsPerTag (elim o [ some e ↦ x e | none ↦ y ]) tags
IsPerTag-failure none y x tags h k = k
IsPerTag-failure (some e) y x tags h k = h e

read_block-IsPerTag :
    (floats : Floats) (reply : Reply) (block : ReadBlock) (timestamp : ℕ)
    → IsPerTag (read_block floats reply block timestamp) block.tags
unfolding read_block decode_register_block decode_bit_block
read_block-IsPerTag floats (raised e) block timestamp =
    IsPerTag-if _ block.tags (per_tag _ block.tags (λ t. refl)) (per_tag _ block.tags (λ t. refl))
read_block-IsPerTag floats (response r) block timestamp =
    IsPerTag-if _ block.tags
      (IsPerTag-failure r.failure _ _ block.tags (λ e. per_tag _ block.tags (λ t. refl))
        (per_tag _ block.tags
          (λ t. tag_result-name t timestamp (register_value floats r.registers block.start t))))
      (IsPerTag-if _ block.tags
        (IsPerTag-failure r.failure _ _ block.tags (λ e. per_tag _ block.tags (λ t. refl))
          (per_tag _ block.tags
            (λ t. tag_result-name t timestamp (bit_value r.bits block.start t))))
        (per_tag _ block.tags (λ t. refl)))

IsPerTag-AreNamed :
    (results : Results) (tags : List TagSpec) → IsPerTag results tags → AreNamed results
IsPerTag-AreNamed results tags p = rw p.each (put_each-AreNamed p.result [] tags p.named tt)

IsPerTag-Has :
    (results : Results) (tags : List TagSpec)
    → IsPerTag results tags
    → All (λ t. Has results t.name) tags
IsPerTag-Has results tags p = rw p.each (put_each-Has p.result [] tags)

module _ (floats : Floats) (client : ℕ → ReadBlock → Reply) (clock : ℕ → ℕ) where
  read_blocks-AreNamed :
      (i : ℕ) (d : Results) (blocks : List ReadBlock)
      → AreNamed d
      → AreNamed (read_blocks floats client clock i d blocks)
  unfolding read_blocks
  read_blocks-AreNamed i d [] h = h
  read_blocks-AreNamed i d (b ∷ bs) h =
      let found = read_block floats (client i b) b (clock i) in
      read_blocks-AreNamed (suc i) (update d found) bs (
        update-AreNamed d found h
          (IsPerTag-AreNamed found b.tags (read_block-IsPerTag floats (client i b) b (clock i))))

  Has-read_blocks :
      (i : ℕ) (d : Results) (blocks : List ReadBlock) (n : String)
      → Has d n
      → Has (read_blocks floats client clock i d blocks) n
  unfolding read_blocks
  Has-read_blocks i d [] n h = h
  Has-read_blocks i d (b ∷ bs) n h =
      let found = read_block floats (client i b) b (clock i) in
      Has-read_blocks (suc i) (update d found) bs n (Has-update d found n h)

  -- Every tag of a planned block gets a result.
  pub read_blocks-Has :
      (i : ℕ) (d : Results) (blocks : List ReadBlock)
      → All (λ t. Has (read_blocks floats client clock i d blocks) t.name) (block_tags blocks)
  unfolding read_blocks
  read_blocks-Has i d [] = tt
  read_blocks-Has i d (b ∷ bs) =
      let found = read_block floats (client i b) b (clock i) in
      All-append _ b.tags (block_tags bs)
        (All-mono _ _ b.tags
          (λ t h. Has-read_blocks (suc i) (update d found) bs t.name (update-Has d found t.name h))
          (IsPerTag-Has found b.tags (read_block-IsPerTag floats (client i b) b (clock i))))
        (read_blocks-Has (suc i) (update d found) bs)

  result_of-name :
      (d : Results) (timestamp : ℕ) (tag : TagSpec)
      → AreNamed d
      → (result_of floats client clock d timestamp tag).name ≡ tag.name
  result_of-name d timestamp tag h = elim (Option-cases (get d tag.name)) [
    | inl e ↦ rw (e, result_of) refl
    | inr (r, e) ↦ rw (e, result_of) (get-AreNamed d tag.name r h e)
  ]

  map-name-results_of :
      (i : ℕ) (d : Results) (tags : List TagSpec)
      → AreNamed d
      → map (λ r. r.name) (results_of floats client clock i d tags) ≡ map (λ t. t.name) tags
  unfolding results_of
  map-name-results_of i d [] h = refl
  map-name-results_of i d (t ∷ ts) h =
      cc (result_of-name d (clock i) t h, map-name-results_of (suc i) d ts h)

map-name-bad_results :
    (clock : ℕ → ℕ) (tags : List TagSpec)
    → map (λ r. r.name) (bad_results clock tags) ≡ map (λ t. t.name) tags
unfolding bad_results
map-name-bad_results clock [] = refl
map-name-bad_results clock (t ∷ ts) = cc (map-name-bad_results clock ts)

-- The stages of a read that returns.
pub read_stages :
    (floats : Floats) (clock : ℕ → ℕ) (client : ℕ → ReadBlock → Reply) (device : DeviceSpec)
    (tags : List TagSpec) {results : List TagResult}
    → read_tags_grouped floats clock (some client) device tags ≡ ok results
    → (unit gap : ℤ) × (max_counts : Dict String ℤ) × (blocks : List ReadBlock) × (plan_blocks tags
          unit gap
          (some max_counts)
        ≡ ok blocks)
      × (results
          ≡ results_of floats client clock
              (length blocks)
              (read_blocks floats client clock 0 [] blocks)
              tags)
unfolding read_tags_grouped
read_stages floats clock client device tags h =
    let (gap, _, h1) = >>=-ok (int_setting device.connection "max_block_gap" (pos 4)) _ h in
    let (counts, _, h2) = >>=-ok (max_counts_from_connection device.connection) _ h1 in
    let (unit, _, h3) = >>=-ok (int_setting device.connection "unit_id" (pos 1)) _ h2 in
    let (blocks, planned, h4) = >>=-ok (plan_blocks tags unit gap (some counts)) _ h3 in
    (unit, gap, counts, blocks, planned, sym (ok_injective h4))

-- A read that returns gives one result for each tag, in the order of the tags and under their names,
-- with or without a client and whatever the client answers.
pub read_tags_grouped-names :
    (floats : Floats) (clock : ℕ → ℕ) (client : Option (ℕ → ReadBlock → Reply))
    (device : DeviceSpec) (tags : List TagSpec) {results : List TagResult}
    → read_tags_grouped floats clock client device tags ≡ ok results
    → map (λ r. r.name) results ≡ map (λ t. t.name) tags
unfolding read_tags_grouped
read_tags_grouped-names floats clock none device tags h =
    rw (← ok_injective h) (map-name-bad_results clock tags)
read_tags_grouped-names floats clock (some client) device tags h =
    let (unit, gap, counts, blocks, planned, e) = read_stages floats clock client device tags h in
    rw e (
      map-name-results_of floats client clock (length blocks) _ tags
        (read_blocks-AreNamed floats client clock 0 [] blocks tt))
