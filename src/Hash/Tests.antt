-- ===== src/Hash/Tests.antt =====
-- A table of numbers.
use investigate_lack_of_pgo.Prelude.{ℕ, ◌==◌, ◌≡◌, refl, some, none}
use investigate_lack_of_pgo.Hash.{Hash, hash_init, append_item, hash_insert, hash_foreach}
use investigate_lack_of_pgo.Hash.Contents.{IsValid}
use investigate_lack_of_pgo.Hash.Foreach.{Filtered, hash_foreach-Filtered}
use investigate_lack_of_pgo.Hash.Insert.{
  Inserted, append_item-Rehashed, hash_insert-Inserted, hash_init-IsValid,
}

abbrev one_key : Hash ℕ
one_key = (hash_insert (λ a b. a == b) hash_init 7 5000).1

-- the same key again, and another one with the same hash value
again : (hash_insert (λ a b. a == b) one_key 7 5000).0 ≡ some 7
unfolding hash_insert hash_init
again = refl

other : (hash_insert (λ a b. a == b) one_key 8 5000).0 ≡ none
unfolding hash_insert hash_init
other = refl

-- a table with the key
abbrev filled : Hash ℕ
filled = append_item hash_init 7 5000

filled-IsValid : IsValid filled
filled-IsValid = (append_item-Rehashed hash_init 7 5000 hash_init-IsValid).0

hash_insert-Inserted_example :
    Inserted (λ a b. a == b) filled 8 5000 (hash_insert (λ a b. a == b) filled 8 5000)
hash_insert-Inserted_example = hash_insert-Inserted (λ a b. a == b) filled 8 5000 filled-IsValid

hash_foreach-Filtered_example : Filtered (λ k. k == 7) filled (hash_foreach (λ k. k == 7) filled)
hash_foreach-Filtered_example = hash_foreach-Filtered (λ k. k == 7) filled filled-IsValid
