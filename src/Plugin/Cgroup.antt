-- ===== src/Plugin/Cgroup.antt =====
-- cmd/dra-rt-kubeletplugin/cgroup.go: the real-time runtime of a parent cgroup. The file system is the
-- parameter `files`.
use dra_rt_driver.Prelude.{ℕ, suc, ◌≤◌, ◌≡◌, refl, String, none, some, List, [], ◌∷◌, length, arith}
use Prim.Native.String.{◌++◌ as text_append}
use dra_rt_driver.Prelude.Int.{ℤ, pos, add_int}
use dra_rt_driver.Prelude.Decimal.{itoa, parse_int32}
use dra_rt_driver.Prelude.Text.{split_at, join_path}
use dra_rt_driver.Prelude.Outcome.{
  Outcome, ok, err, panic, index_out_of_range, parse_failure, ◌>>=◌,
}
use dra_rt_driver.Prelude.Exec.{Exec}

pub record Files (F : Type 0) : Type 0 where
  pub stat : String → F → Outcome (Unit {0})
  pub read_file : String → F → Outcome String
  pub write_file : String → String → Exec F (Unit {0})

unfoldable pub parse_runtimes : List String → Outcome (List ℤ)
parse_runtimes [] = ok []
parse_runtimes (s ∷ rest) = elim (parse_int32 s) as (λ _. Outcome (List ℤ)) [
  | none ↦ panic parse_failure
  | some v ↦ parse_runtimes rest >>= λ vs. ok (v ∷ vs)
]

-- `runtimeStrings[:len(runtimeStrings)-2]`
unfoldable pub drop_two : List String → Outcome (List String)
drop_two [] = panic index_out_of_range
drop_two (a ∷ []) = panic index_out_of_range
drop_two (a ∷ b ∷ []) = ok []
drop_two (a ∷ b ∷ c ∷ rest) = drop_two (b ∷ c ∷ rest) >>= λ xs. ok (a ∷ xs)

module _ {F : Type 0} (files : Files F) where
  -- `readCpuRtMultiRuntimeFile`
  unfoldable pub read_cpu_rt_multi_runtime_file : String → F → Outcome (List ℤ)
  unfolding parse_runtimes drop_two
  read_cpu_rt_multi_runtime_file file_path f = files.stat file_path f >>= λ u.
      files.read_file file_path f >>= λ buf. drop_two (split_at 32 "" buf) >>= parse_runtimes

-- `runtimes, _ := …`: nil if there was an error.
abbrev runtimes_of : Outcome (List ℤ) → Outcome (List ℤ)
runtimes_of (ok rs) = ok rs
runtimes_of (err e) = ok []
runtimes_of (panic p) = panic p

-- The loop over the runtimes, which are the new ones too: the runtime of a round is read before the
-- round changes it. The results are the new runtimes and the text.
unfoldable pub add_runtimes : ℕ → List ℤ → List ℤ → String → Outcome (List ℤ × String)
add_runtimes cpu [] pods str = ok ([], str)
add_runtimes cpu (runtime ∷ runtimes) [] str = panic index_out_of_range
add_runtimes cpu (runtime ∷ runtimes) (pod ∷ pods) str =
    add_runtimes (suc cpu) runtimes pods (
      text_append str
        (text_append (itoa (pos cpu)) (text_append " " (text_append (itoa runtime) " "))))
    >>= λ r. ok (add_int runtime pod ∷ r.0, r.1)

module _ {F : Type 0} (files : Files F) where
  abbrev write_result : String → F → Outcome (List ℤ × String) → Outcome (Unit {0}) × F
  write_result file_path f (ok r) = files.write_file file_path r.1 f
  write_result file_path f (err e) = (err e, f)
  write_result file_path f (panic p) = (panic p, f)

  -- `writeToParentMultiRuntime`, for a rooted path.
  unfoldable pub write_to_parent_multi_runtime : String → List ℤ → Exec F (Unit {0})
  unfolding read_cpu_rt_multi_runtime_file add_runtimes
  write_to_parent_multi_runtime path pod_runtimes f =
      let file_path = join_path path "cpu.rt_multi_runtime_us" in
      write_result file_path f (
        runtimes_of (read_cpu_rt_multi_runtime_file files file_path f) >>= λ runtimes.
        add_runtimes 0 runtimes pod_runtimes "")

-- `removeRuntimeFromParent`
unfoldable pub remove_runtime_from_parent : {F : Type 0} → Exec F (Unit {0})
remove_runtime_from_parent f = (ok tt, f)

-- The text of runtimes: the number of each CPU, and its runtime.
abbrev runtimes_text : ℕ → List ℤ → String → String
runtimes_text cpu [] str = str
runtimes_text cpu (runtime ∷ runtimes) str = runtimes_text (suc cpu) runtimes (
    text_append str
      (text_append (itoa (pos cpu)) (text_append " " (text_append (itoa runtime) " "))))

add_runtimes_lem :
    (cpu : ℕ) (runtimes pods : List ℤ) (str : String)
    → length runtimes ≤ length pods
    → (news : List ℤ) × (add_runtimes cpu runtimes pods str
        ≡ ok (news, runtimes_text cpu runtimes str))
unfolding add_runtimes
add_runtimes_lem cpu [] pods str h = ([], refl)
add_runtimes_lem cpu (r ∷ rs) [] str h = absurd (let e : suc (length rs) ≤ 0 = h in omega arith)
add_runtimes_lem cpu (r ∷ rs) (p ∷ pods) str h =
    let (news, e) =
      add_runtimes_lem (suc cpu) rs pods
        (text_append str
          (text_append (itoa (pos cpu)) (text_append " " (text_append (itoa r) " "))))
        (omega arith) in
    (add_int r p ∷ news, rw (add_runtimes, e, ◌>>=◌) refl)

-- Of a cgroup whose file reads as the runtimes `runtimes`, for at least as many runtimes of a pod:
-- `writeToParentMultiRuntime` writes back the runtimes that it has read, whatever those of the pod.
pub write_to_parent_multi_runtime_writes_old :
    {F : Type 0} (files : Files F) (path : String) (f : F) (runtimes pods : List ℤ)
    → read_cpu_rt_multi_runtime_file files (join_path path "cpu.rt_multi_runtime_us") f
      ≡ ok runtimes
    → length runtimes ≤ length pods
    → write_to_parent_multi_runtime files path pods f
      ≡ files.write_file (join_path path "cpu.rt_multi_runtime_us") (runtimes_text 0 runtimes "") f
unfolding write_to_parent_multi_runtime
write_to_parent_multi_runtime_writes_old files path f runtimes pods reads h =
    let (news, e) = add_runtimes_lem 0 runtimes pods "" h in
    rw (write_to_parent_multi_runtime, reads, ◌>>=◌, e) refl
