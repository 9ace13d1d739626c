-- ===== src/Examples/Cgroup.antt =====
-- discovery.go and cgroup.go of the plugin.
use dra_rt_driver.Prelude.{
  ℕ, ◌%◌, ◌≤◌, ◌<◌, ◌≡◌, refl, String, List, [], ◌∷◌, All, length, arith, ◌+◌,
}
use Prim.Native.Nat.{zero, suc}
use dra_rt_driver.Prelude.Int.{ℤ, pos, negsuc}
use dra_rt_driver.Prelude.Decimal.{parse_int32}
use dra_rt_driver.Prelude.Text.{split_at, join_path}
use dra_rt_driver.Prelude.GoMap.{HasDistinctKeys}
use dra_rt_driver.Prelude.Outcome.{ok}
use dra_rt_driver.Plugin.Possible.{
  hash, hash_from, IsIntn, IsPossible, enumerate_all_possible_devices,
  enumerate_all_possible_devices_bounded,
}
use dra_rt_driver.Plugin.Cgroup.{
  Files, parse_runtimes, drop_two, read_cpu_rt_multi_runtime_file, write_to_parent_multi_runtime,
  write_to_parent_multi_runtime_writes_old,
}

-- A generator that counts.
abbrev counts : ℤ → ℕ → ℕ → ℕ
counts seed i zero = 0
counts seed i (suc n) = i % suc n

counts-IsIntn : IsIntn counts
counts-IsIntn = record { below = below }
  where
    below : (seed : ℤ) (i n : ℕ) → 0 < n → counts seed i n < n
    below seed i zero h = omega arith
    below seed i (suc n) h = ground arith

enumerate_all_possible_devices_bounded_example :
    HasDistinctKeys (enumerate_all_possible_devices counts "a")
    × All IsPossible (enumerate_all_possible_devices counts "a")
    × (length (enumerate_all_possible_devices counts "a") ≤ 4)
enumerate_all_possible_devices_bounded_example =
    enumerate_all_possible_devices_bounded counts counts-IsIntn "a"

hash_ab : hash "ab" ≡ pos 3105
unfolding hash hash_from dra_rt_driver.Prelude.Int.add_int dra_rt_driver.Prelude.Int.mul_int
    dra_rt_driver.Prelude.Int.◌+ℤ◌ dra_rt_driver.Prelude.Int.◌*ℤ◌ dra_rt_driver.Prelude.Int.wrap
hash_ab = refl

-- A file system with one file, whose text is the state.
abbrev one_file : Files String
one_file = record {
  stat = λ path text. ok tt;
  read_file = λ path text. ok text;
  write_file = λ path new text. (ok tt, new);
}

abbrev group : String
group = "/sys/fs/cgroup/cpu,cpuacct/kubepods.slice"

two_runtimes :
    read_cpu_rt_multi_runtime_file one_file
      (join_path group "cpu.rt_multi_runtime_us")
      "950000 400000 \n x"
    ≡ ok (pos 950000 ∷ pos 400000 ∷ [])
unfolding read_cpu_rt_multi_runtime_file parse_runtimes drop_two split_at parse_int32
two_runtimes = refl

write_to_parent_multi_runtime_writes_old_example :
    write_to_parent_multi_runtime one_file group (pos 1 ∷ pos 2 ∷ []) "950000 400000 \n x"
    ≡ (ok tt, "0 950000 1 400000 ")
unfolding dra_rt_driver.Prelude.Decimal.itoa
write_to_parent_multi_runtime_writes_old_example =
    write_to_parent_multi_runtime_writes_old one_file group "950000 400000 \n x"
      (pos 950000 ∷ pos 400000 ∷ []) (pos 1 ∷ pos 2 ∷ []) two_runtimes (omega arith)
