-- ===== src/BitArray/Defs.antt =====
-- src/bit_array.h: arrays of bits stored in machine words, and the searches over them.
-- The words are a list; a read past its end gives 0, which `IsBitArray` rules out.
-- The `assert`s are preconditions of the theorems.
use udipe.Prelude.{
  ℕ, zero, suc, ◌+◌, ◌-◌, ◌*◌, ◌/◌, ◌%◌, ◌^◌, bit_and, bit_or, Bool, true, false, not, ◌&&◌, ◌||◌,
  ltb, ◌==◌, if◌then◌else◌, List, get_or, set, drop,
}
use udipe.Words.Ops.{
  bits_per_word, size_max, div_ceil, sub_size, shift_left, shift_right, bit_not, low_mask,
  bit_broadcast, count_trailing_zeros, population_count,
}

-- `bit_pos_t`
pub record BitPos : Type 0 where
  pub word : ℕ
  pub offset : ℕ

-- `NO_BIT_POS`
abbrev pub no_bit_pos : BitPos
no_bit_pos = record { word = size_max; offset = size_max }

abbrev pub bit_array_words : ℕ → ℕ
bit_array_words len = div_ceil len bits_per_word

unfoldable pub bit_pos_to_index : BitPos → ℕ
bit_pos_to_index bit = (bit.word * bits_per_word + bit.offset) % 2 ^ 64

unfoldable pub index_to_bit_pos : ℕ → BitPos
index_to_bit_pos index = record { word = index / bits_per_word; offset = index % bits_per_word }

-- `BIT_ARRAY_START`
abbrev pub bit_array_start : BitPos
bit_array_start = record { word = 0; offset = 0 }

unfoldable pub bit_array_end : ℕ → BitPos
unfolding index_to_bit_pos
bit_array_end len = index_to_bit_pos len

-- `bit_array[word]`
abbrev pub word_at : List ℕ → ℕ → ℕ
word_at words word = get_or words word 0

unfoldable pub bit_array_get : List ℕ → ℕ → BitPos → Bool
bit_array_get words len bit = not (bit_and (word_at words bit.word) (shift_left 1 bit.offset) == 0)

unfoldable pub bit_array_set : List ℕ → ℕ → BitPos → Bool → List ℕ
bit_array_set words len bit value =
    let old = word_at words bit.word in
    if value
    then set words bit.word (bit_or old (shift_left 1 bit.offset))
    else set words bit.word (bit_and old (bit_not (shift_left 1 bit.offset)))

-- `if (!value) target = ~target;`
abbrev pub normalize : Bool → ℕ → ℕ
normalize value target = if value then target else bit_not target

-- The loop of `bit_array_count` over the full words.
unfoldable pub count_full_words : ℕ → ℕ → List ℕ → Bool → ℕ → ℕ
count_full_words zero word words value result = result
count_full_words (suc rounds) word words value result =
    count_full_words rounds (word + 1) words value
      ((result + population_count (normalize value (word_at words word))) % 2 ^ 64)

unfoldable pub bit_array_count : List ℕ → ℕ → Bool → ℕ
unfolding count_full_words
bit_array_count words len value =
    let num_full_words = len / bits_per_word in
    let remaining_bits = len % bits_per_word in
    let result = count_full_words num_full_words 0 words value 0 in
    let target = normalize value (word_at words num_full_words) in
    if remaining_bits == 0
    then result
    else (result + population_count (bit_and target (low_mask remaining_bits))) % 2 ^ 64

-- What one round of `bit_array_range_alleq` compares with zero.
unfoldable pub alleq_target : List ℕ → BitPos → BitPos → Bool → ℕ → ℕ
alleq_target words start end value word =
    let loaded = word_at words word in
    let normal = if value then bit_not loaded else loaded in
    let bounded = if word == end.word then bit_and normal (low_mask end.offset) else normal in
    if word == start.word then shift_right bounded start.offset else bounded

-- The loop of `bit_array_range_alleq`, with the rounds left and `word`.
unfoldable pub alleq_from : ℕ → List ℕ → BitPos → BitPos → Bool → ℕ → Bool
alleq_from zero words start end value word = true
alleq_from (suc rounds) words start end value word =
    let rest = alleq_from rounds words start end value (word + 1) in
    if (word == end.word) && (end.offset == 0)
    then true
    else if alleq_target words start end value word == 0
    then rest
    else false

unfoldable pub bit_array_range_alleq : List ℕ → ℕ → BitPos → BitPos → Bool → Bool
unfolding alleq_from alleq_target
bit_array_range_alleq words len start end value =
    alleq_from (end.word + 1 - start.word) words start end value start.word

-- The last line of one round of `bit_array_range_set`: the word with bits
-- `start_offset` to `end_offset` replaced.
unfoldable pub masked_fill : ℕ → ℕ → ℕ → ℕ → ℕ
masked_fill broadcast current start_offset end_offset =
    let offset_delta = sub_size end_offset start_offset in
    let fill_mask = shift_left (low_mask offset_delta) start_offset in
    bit_or (bit_and broadcast fill_mask) (bit_and current (bit_not fill_mask))

-- The loop of `bit_array_range_set`.
unfoldable pub range_set_from : ℕ → BitPos → BitPos → Bool → ℕ → List ℕ → List ℕ
unfolding masked_fill
range_set_from zero start end value word words = words
range_set_from (suc rounds) start end value word words =
    let rest = λ (ws : List ℕ). range_set_from rounds start end value (word + 1) ws in
    let start_offset = if word == start.word then start.offset else 0 in
    let end_offset = if word == end.word then end.offset else bits_per_word in
    if (ltb start.word word || (start.offset == 0)) && ltb word end.word
    then rest (set words word (bit_broadcast value))
    else if (word == end.word) && (end.offset == 0)
    then words
    else if ltb end_offset start_offset
    then rest words
    else rest (
        set words word
          (masked_fill (bit_broadcast value) (word_at words word) start_offset end_offset))

unfoldable pub bit_array_range_set : List ℕ → ℕ → BitPos → BitPos → Bool → List ℕ
unfolding range_set_from
bit_array_range_set words len start end value =
    range_set_from (end.word + 1 - start.word) start end value start.word words

-- The loop of `bit_array_find_first`: the first word that is not `empty_word`.
unfoldable pub skip_words : ℕ → List ℕ → ℕ → ℕ → ℕ
skip_words zero words empty_word word = word
skip_words (suc rounds) words empty_word word =
    let rest = skip_words rounds words empty_word (word + 1) in
    if word_at words word == empty_word then rest else word

-- `bit_array_find_first` once the loop has stopped at `word`, inside the array.
unfoldable pub first_in_word : List ℕ → ℕ → Bool → ℕ → BitPos
first_in_word words len value word =
    let num_full_words = len / bits_per_word in
    let remaining_bits = len % bits_per_word in
    let found_word = normalize value (word_at words word) in
    let is_partial = (word == num_full_words) && not (remaining_bits == 0) in
    let found = if is_partial then bit_and found_word (low_mask remaining_bits) else found_word in
    if is_partial && (found == 0)
    then no_bit_pos
    else record { word = word; offset = count_trailing_zeros found }

unfoldable pub bit_array_find_first : List ℕ → ℕ → Bool → BitPos
bit_array_find_first words len value =
    let empty_word = bit_broadcast (not value) in
    let end_word = bit_array_words len in
    let word = skip_words end_word words empty_word 0 in
    if word == end_word then no_bit_pos else first_in_word words len value word

-- The first part of `bit_array_find_next`: the bits of `previous`'s word that come after it.
unfoldable pub rest_of_word : List ℕ → ℕ → BitPos → Bool → ℕ
rest_of_word words len previous value =
    let num_full_words = len / bits_per_word in
    let remaining_bits = len % bits_per_word in
    let previous_word = normalize value (word_at words previous.word) in
    let masked =
      if previous.word == num_full_words
      then bit_and previous_word (low_mask remaining_bits)
      else previous_word in
    shift_right masked (previous.offset + 1)

-- The last part of `bit_array_find_next`: the words from the start up to `previous`.
unfoldable pub find_wrapped : List ℕ → BitPos → Bool → Bool → BitPos
find_wrapped words previous wraparound value =
    if wraparound
    then bit_array_find_first words ((bit_pos_to_index previous + 1) % 2 ^ 64) value
    else no_bit_pos

-- The middle part of `bit_array_find_next`: the words after that of `previous`.
unfoldable pub find_in_later_words : List ℕ → ℕ → BitPos → Bool → Bool → BitPos
find_in_later_words words len previous wraparound value =
    let num_words = bit_array_words len in
    let word_offset = previous.word + 1 in
    let pos =
      bit_array_find_first (drop word_offset words) (sub_size len (word_offset * bits_per_word))
        value in
    if previous.word == sub_size num_words 1
    then find_wrapped words previous wraparound value
    else if pos.word == size_max
    then find_wrapped words previous wraparound value
    else record pos { word = pos.word + word_offset }

unfoldable pub bit_array_find_next : List ℕ → ℕ → BitPos → Bool → Bool → BitPos
bit_array_find_next words len previous wraparound value =
    let previous_bits =
      if previous.word == len / bits_per_word then len % bits_per_word else bits_per_word in
    let rest = rest_of_word words len previous value in
    let later = find_in_later_words words len previous wraparound value in
    if previous.offset == sub_size previous_bits 1
    then later
    else if rest == 0
    then later
    else record { word = previous.word; offset = previous.offset + 1 + count_trailing_zeros rest }
