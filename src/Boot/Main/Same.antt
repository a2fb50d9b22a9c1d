-- ===== src/Boot/Main/Same.antt =====
-- The log and the self tests change memory, the log and the file system, and nothing else.
use icosaos.Prelude.{
  ℕ, ◌≡◌, refl, ◌∙◌, ◌==◌, Bool, true, false, inl, inr, Bool-cases, List, codes, if◌then◌else◌, Run,
  ok, ◌>>=◌, Ends, ends, Ends-bind, Ends-any, Ends-mono,
}
use icosaos.Strings.{strcmp}
use icosaos.Disk.{Registers}
use icosaos.Framebuffer.Text.{Font}
use icosaos.Klog.{Log, LogStatus}
use icosaos.Fat32.Volume.{Files, init_fat32}
use icosaos.Boot.Startup.{kernel_allocator, Image, Kernel, with_log, info_line, set_status, verdict}
use icosaos.Boot.SelfTest.{
  with_files, start_files, resolve, test_root, test_directory, compare_contents, test_contents,
  test_found_file, test_file, test_rejection, and_then, self_tests,
}

module _ {fuel calls : ℕ} where
  -- Only the log, memory and the file system may differ.
  pub record Same (k k' : Kernel fuel calls) : Type 0 where
    pub interrupts : k'.interrupts ≡ k.interrupts
    pub tasks : k'.tasks ≡ k.tasks
    pub interrupts_enabled : k'.interrupts_enabled ≡ k.interrupts_enabled

  pub Same-self : (k : Kernel fuel calls) → Same k k
  Same-self k = record { interrupts = refl; tasks = refl; interrupts_enabled = refl }

  pub Same-after : (k k' k'' : Kernel fuel calls) → Same k k' → Same k' k'' → Same k k''
  Same-after k k' k'' s s' = record {
    interrupts = s'.interrupts ∙ s.interrupts;
    tasks = s'.tasks ∙ s.tasks;
    interrupts_enabled = s'.interrupts_enabled ∙ s.interrupts_enabled;
  }

  pub with_log-Same : (f : Log → Run Log) (k : Kernel fuel calls) → Ends (Same k) (with_log f k)
  unfolding with_log
  with_log-Same f k =
      Ends-bind (Ends-any (f _))
        (λ l _. ends (record { interrupts = refl; tasks = refl; interrupts_enabled = refl }))

  with_files-Same :
      (f : Files (kernel_allocator fuel calls) → Run (ℕ × Files (kernel_allocator fuel calls)))
      (k : Kernel fuel calls)
      → Ends (λ (r : ℕ × Kernel fuel calls). Same k r.1) (with_files f k)
  unfolding with_files
  with_files-Same f k =
      Ends-bind (Ends-any (f k.files))
        (λ r _. ends (record { interrupts = refl; tasks = refl; interrupts_enabled = refl }))

  abbrev pub state : {B : Type 0} → B × Kernel fuel calls → Kernel fuel calls
  state (b, k) = k

  -- A next step goes on from a state that is the same as the first.
  pub then_Same :
      {B C : Type 0} (at : B → Kernel fuel calls) (to : C → Kernel fuel calls)
      (k : Kernel fuel calls) {r : Run B} {next : B → Run C}
      → Ends (λ b. Same k (at b)) r
      → ((b : B) → Ends (λ c. Same (at b) (to c)) (next b))
      → Ends (λ c. Same k (to c)) (r >>= next)
  then_Same at to k first next =
      Ends-bind first (λ b s. Ends-mono (next b) (λ c s'. Same-after k (at b) (to c) s s'))

  module _ (font : Font) (image : Image) where
    pub set_status-Same :
        (status : LogStatus) (k : Kernel fuel calls)
        → Ends (Same k) (set_status font image status k)
    unfolding set_status
    set_status-Same status k = with_log-Same _ k

    pub info_line-Same :
        (message : List ℕ) (k : Kernel fuel calls) → Ends (Same k) (info_line font image message k)
    unfolding info_line
    info_line-Same message k = with_log-Same _ k

    verdict-Same :
        (passed : Bool) (k : Kernel fuel calls)
        → Ends (λ r. Same k (state r)) (verdict font image passed k)
    unfolding verdict
    verdict-Same passed k =
        then_Same (λ x. x) state k (set_status-Same _ k) (λ k'. ends (Same-self k'))

    module _ (drive : Registers → ℕ → ℕ) where
      resolve-Same :
          (path : List ℕ) (root : ℕ) (k : Kernel fuel calls)
          → Ends (λ r. Same k (state r)) (resolve font drive image path root k)
      unfolding resolve
      resolve-Same path root k = with_files-Same _ k

      test_root-Same :
          (root : ℕ) (k : Kernel fuel calls)
          → Ends (λ r. Same k (state r)) (test_root font drive image root k)
      unfolding test_root
      test_root-Same root k =
          then_Same (λ x. x) state k (info_line-Same _ k)
            (λ k1.
              then_Same state state k1 (resolve-Same _ root k1) (λ (found, k2). verdict-Same _ k2))

      test_directory-Same :
          (root : ℕ) (k : Kernel fuel calls)
          → Ends (λ r. Same k (state r)) (test_directory font drive image root k)
      unfolding test_directory
      test_directory-Same root k =
          then_Same (λ x. x) state k (info_line-Same _ k)
            (λ k1.
              then_Same state state k1 (resolve-Same _ root k1) (λ (found, k2). verdict-Same _ k2))

      test_rejection-Same :
          (root : ℕ) (k : Kernel fuel calls)
          → Ends (λ r. Same k (state r)) (test_rejection font drive image root k)
      unfolding test_rejection
      test_rejection-Same root k =
          then_Same (λ x. x) state k (info_line-Same _ k)
            (λ k1.
              then_Same state state k1 (resolve-Same _ root k1) (λ (found, k2). verdict-Same _ k2))

      compared-Same :
          (text file_data : ℕ) (k : Kernel fuel calls)
          → Ends (λ r. Same k (state r)) (compare_contents font drive image text file_data k)
      unfolding compare_contents
      compared-Same text file_data k =
          Ends-bind (Ends-any (strcmp fuel text file_data k.files.bytes)) (λ difference _.
            then_Same state state k (verdict-Same (difference == 0) k) (λ (passed, k2).
              Ends-bind (Ends-any ((kernel_allocator fuel calls).kfree file_data k2.files.heap))
                (λ heap _.
                  ends (record { interrupts = refl; tasks = refl; interrupts_enabled = refl }))))

      test_contents-Same :
          (k : Kernel fuel calls) → Ends (λ r. Same k (state r)) (test_contents font drive image k)
      unfolding test_contents
      test_contents-Same k = then_Same state state k (with_files-Same _ k) (λ (file_data, k1).
          elim (Bool-cases (file_data == 0)) [
            | inl none_left ↦ rw none_left (verdict-Same false k1)
            | inr got ↦ rw got (compared-Same _ file_data k1)
          ])

      test_found_file-Same :
          (k : Kernel fuel calls)
          → Ends (λ r. Same k (state r)) (test_found_file font drive image k)
      unfolding test_found_file
      test_found_file-Same k =
          then_Same (λ x. x) state k (set_status-Same _ k)
            (λ k1.
              then_Same (λ x. x) state k1 (info_line-Same _ k1)
                (λ k2.
                  then_Same state state k2 (verdict-Same _ k2)
                    (λ (is_file, k3). contents is_file k3)))
        where
          contents :
              (is_file : Bool) (k3 : Kernel fuel calls)
              → Ends
                  (λ r. Same k3 (state r))
                  (if is_file
                    then (info_line font image (codes "FAT32 file contents test...") k3
                        >>= test_contents font drive image)
                    else ok (false, k3))
          contents true k3 = then_Same (λ x. x) state k3 (info_line-Same _ k3) test_contents-Same
          contents false k3 = ends (Same-self k3)

      test_file-Same :
          (root : ℕ) (k : Kernel fuel calls)
          → Ends (λ r. Same k (state r)) (test_file font drive image root k)
      unfolding test_file
      test_file-Same root k =
          then_Same (λ x. x) state k (info_line-Same _ k)
            (λ k1. then_Same state state k1 (resolve-Same _ root k1) (λ (found, k2).
              elim (Bool-cases (found == 0)) [
                | inl missing ↦ rw missing (verdict-Same false k2)
                | inr there ↦ rw there (test_found_file-Same k2)
              ]))

      and_then-Same :
          (test : Kernel fuel calls → Run (Bool × Kernel fuel calls))
          → ((k : Kernel fuel calls) → Ends (λ r. Same k (state r)) (test k))
          → (r : Bool × Kernel fuel calls)
          → Ends (λ r'. Same (state r) (state r')) (and_then font drive image test r)
      unfolding and_then
      and_then-Same test same (true, k) = same k
      and_then-Same test same (false, k) = ends (Same-self k)

      pub self_tests-Same :
          (root : ℕ) (k : Kernel fuel calls)
          → Ends (λ r. Same k (state r)) (self_tests font drive image root k)
      unfolding self_tests
      self_tests-Same root k =
          then_Same state state k
            (then_Same state state k
              (then_Same state state k (test_root-Same root k)
                (and_then-Same _ (test_directory-Same root)))
              (and_then-Same _ (test_file-Same root)))
            (and_then-Same _ (test_rejection-Same root))

      pub start_files-Same :
          (k : Kernel fuel calls) → Ends (λ r. Same k (state r)) (start_files font drive image k)
      unfolding start_files
      start_files-Same k =
          then_Same (λ x. x) state k (info_line-Same _ k)
            (λ k1. then_Same state state k1 (with_files-Same (init_fat32 drive) k1) (λ (root, k2).
              then_Same (λ x. x) state k2 (set_status-Same _ k2) (λ k3. ends (Same-self k3))))
