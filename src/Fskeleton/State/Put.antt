-- ===== src/Fskeleton/State/Put.antt =====
-- What `put` writes, field by field.
use be_hierarchic.Prelude.{ℕ, ◌+◌, ◌^◌, ◌<◌, ◌≡◌, refl, ◌==◌, some, arith, ite, if◌then◌else◌}
use be_hierarchic.Intern.Path.{FilePath, FilePath_discrete}
use be_hierarchic.Fskeleton.State.{Entry, Fs, put}

module _ (fs : Fs) (parent : ℕ) (f : Entry) where
  abbrev pub after : Fs
  after = (put fs parent f).0

  pub put_len : after.len ≡ fs.len + 1
  unfolding put
  put_len = refl

  pub put_done : after.done ≡ fs.done
  unfolding put
  put_done = refl

  module _ (fits : fs.len < 2 ^ 32) where
    pub put_index : (put fs parent f).1 ≡ fs.len
    unfolding put
    put_index = omega arith

    pub put_lists :
        (q : FilePath) → after.lists q ≡ ite (FilePath_discrete f.name q) (some fs.len) (fs.lists q)
    unfolding put
    put_lists q = ground arith

    module _ (within : parent < fs.len) where
      pub put_last_child :
          (i : ℕ)
          → i < fs.len
          → (after.files i).last_child ≡ (if parent == i then fs.len else (fs.files i).last_child)
      unfolding put
      put_last_child i h = ground arith

      pub put_name : (i : ℕ) → i < fs.len → (after.files i).name ≡ (fs.files i).name
      unfolding put
      put_name i h = ground arith

      pub put_mode : (i : ℕ) → i < fs.len → (after.files i).mode ≡ (fs.files i).mode
      unfolding put
      put_mode i h = ground arith

      pub put_sibling :
          (i : ℕ)
          → i < fs.len
          → (fs.files parent).last_child < fs.len
          → (after.files i).sibling ≡ (
              if (fs.files parent).last_child == 0
              then (fs.files i).sibling
              else if (fs.files parent).last_child == i
              then fs.len
              else (fs.files i).sibling)
      unfolding put
      put_sibling i h k = ground arith

      pub put_new_name : (after.files fs.len).name ≡ f.name
      unfolding put
      put_new_name = ground arith

      pub put_new_mode : (after.files fs.len).mode ≡ f.mode
      unfolding put
      put_new_mode = ground arith

      pub put_new_last_child : (after.files fs.len).last_child ≡ f.last_child
      unfolding put
      put_new_last_child = ground arith

      pub put_new_sibling :
          (fs.files parent).last_child < fs.len
          → (after.files fs.len).sibling ≡ (
              if (fs.files parent).last_child == 0
              then fs.len
              else (fs.files ((fs.files parent).last_child)).sibling)
      unfolding put
      put_new_sibling k = ground arith

      pub put_new_id : (after.files fs.len).id ≡ f.id
      unfolding put
      put_new_id = ground arith

      pub put_new_time : (after.files fs.len).time ≡ f.time
      unfolding put
      put_new_time = ground arith

      pub put_new_content : (after.files fs.len).content ≡ f.content
      unfolding put
      put_new_content = ground arith
