-- ===== src/Plugin/Possible.antt =====
-- cmd/dra-rt-kubeletplugin/discovery.go: the CPUs that a node could have. Go's generator of random
-- numbers is the parameter `intn`: of a seed, the draws before this one, and the bound.
use dra_rt_driver.Prelude.{
  ℕ, zero, suc, ◌+◌, ◌≤◌, ◌<◌, ◌≡◌, refl, String, List, [], ◌∷◌, All, length, arith,
}
use Prim.Native.Char.{code}
use Prim.Native.String.{[] as no_text, ◌∷◌ as char_then}
use dra_rt_driver.Prelude.Int.{ℤ, pos, int_key, add_int, mul_int}
use dra_rt_driver.Prelude.GoMap.{insert, HasDistinctKeys, HasDistinctKeys-insert, All-insert}
use dra_rt_driver.Plugin.Devices.{RtCpuInfo, AllocatableRtCpus}

-- The loop of `hash`
unfoldable pub hash_from : ℤ → String → ℤ
hash_from h no_text = h
hash_from h (char_then c s) = hash_from (add_int (mul_int (pos 31) h) (pos (code c))) s

-- `hash`
unfoldable pub hash : String → ℤ
hash s = hash_from (pos 0) s

module _ (intn : ℤ → ℕ → ℕ → ℕ) where
  unfoldable pub draw_ids : ℤ → ℕ → ℕ → List ℤ
  draw_ids seed i zero = []
  draw_ids seed i (suc n) = pos (intn seed i 5) ∷ draw_ids seed (suc i) n

  -- `generateIDs`
  unfoldable pub generate_ids : String → ℕ → List ℤ
  unfolding draw_ids hash
  generate_ids seed count = draw_ids (hash seed) 0 count

  unfoldable pub enumerate_ids : List ℤ → AllocatableRtCpus → AllocatableRtCpus
  enumerate_ids [] alldevices = alldevices
  enumerate_ids (id ∷ ids) alldevices =
      enumerate_ids ids (insert id (record { id = id; util = pos 0 }) alldevices)

  -- `enumerateAllPossibleDevices`, on a node with this name.
  unfoldable pub enumerate_all_possible_devices : String → AllocatableRtCpus
  unfolding generate_ids enumerate_ids
  enumerate_all_possible_devices node_name = enumerate_ids (generate_ids node_name 4) []

-- What `Intn` documents: the number is below the bound.
pub record IsIntn (intn : ℤ → ℕ → ℕ → ℕ) : Type 0 where
  pub below : (seed : ℤ) (i n : ℕ) → 0 < n → intn seed i n < n

-- A CPU under its own number, one of the five, with nothing in use.
pub record IsPossible (e : ℤ × RtCpuInfo) : Type 0 where
  pub number : ℕ
  pub is_number : e.0 ≡ pos number
  pub below : number < 5
  pub own : e.1 ≡ record { id = e.0; util = pos 0 }

record IsBelowFive (id : ℤ) : Type 0 where
  number : ℕ
  is_number : id ≡ pos number
  below : number < 5

module _ (intn : ℤ → ℕ → ℕ → ℕ) (law : IsIntn intn) where
  draw_ids-All : (seed : ℤ) (i n : ℕ) → All IsBelowFive (draw_ids intn seed i n)
  unfolding draw_ids
  draw_ids-All seed i zero = tt
  draw_ids-All seed i (suc n) = (
    record { number = intn seed i 5; is_number = refl; below = law.below seed i 5 (omega arith) },
    draw_ids-All seed (suc i) n,
  )

  length-draw_ids : (seed : ℤ) (i n : ℕ) → length (draw_ids intn seed i n) ≡ n
  unfolding draw_ids
  length-draw_ids seed i zero = refl
  length-draw_ids seed i (suc n) = rw (length-draw_ids seed (suc i) n) refl

  length-insert :
      (k : ℤ) (v : RtCpuInfo) (m : AllocatableRtCpus) → length (insert k v m) ≤ suc (length m)
  unfolding insert
  length-insert k v [] = omega arith
  length-insert k v ((j, w) ∷ m) = ground (arith, length-insert k v m)

  record IsEnumerated (ids : List ℤ) (before after : AllocatableRtCpus) : Type 0 where
    distinct : HasDistinctKeys after
    all : All IsPossible after
    few : length after ≤ length before + length ids

  enumerate_ids-IsEnumerated :
      (ids : List ℤ) (m : AllocatableRtCpus)
      → All IsBelowFive ids
      → HasDistinctKeys m
      → All IsPossible m
      → IsEnumerated ids m (enumerate_ids intn ids m)
  unfolding enumerate_ids
  enumerate_ids-IsEnumerated [] m b d a = record { distinct = d; all = a; few = omega arith }
  enumerate_ids-IsEnumerated (id ∷ ids) m b d a =
      let v : RtCpuInfo = record { id = id; util = pos 0 } in
      let r = enumerate_ids-IsEnumerated ids (insert id v m) b.1 (HasDistinctKeys-insert id v m d) (
        All-insert IsPossible id v m
          (record { number = b.0.number; is_number = b.0.is_number; below = b.0.below; own = refl })
          a) in
      record {
        distinct = r.distinct;
        all = r.all;
        few = omega (arith, r.few, length-insert id v m);
      }

  -- With a generator that keeps to its bound: the map of possible CPUs has at most four entries, under
  -- different numbers, each of them one of 0 to 4, with the CPU of that number and nothing in use.
  pub enumerate_all_possible_devices_bounded :
      (node_name : String)
      → HasDistinctKeys (enumerate_all_possible_devices intn node_name)
        × All IsPossible (enumerate_all_possible_devices intn node_name)
        × (length (enumerate_all_possible_devices intn node_name) ≤ 4)
  unfolding enumerate_all_possible_devices generate_ids
  enumerate_all_possible_devices_bounded node_name =
      let r =
        enumerate_ids-IsEnumerated (draw_ids intn (hash node_name) 0 4) []
          (draw_ids-All (hash node_name) 0 4) tt tt in
      (r.distinct, r.all, omega (arith, r.few, length-draw_ids (hash node_name) 0 4))
