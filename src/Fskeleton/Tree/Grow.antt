-- ===== src/Fskeleton/Tree/Grow.antt =====
-- What a call that adds files leaves alone.
use be_hierarchic.Prelude.{
  ℕ, ◌^◌, ◌<◌, ◌≤◌, ◌≡◌, refl, some, none, arith, ℕ_discrete, true, false, ap, ◌∙◌,
}
use be_hierarchic.Intern.Path.{FilePath}
use be_hierarchic.Fskeleton.Mode.{is_dir}
use be_hierarchic.Fskeleton.State.{Entry, Fs, put}
use be_hierarchic.Fskeleton.State.Put

-- Two states of one file: only the links of a directory and the sibling may differ. The last child
-- of a file that is no directory is its packed size.
pub record IsSame (e e' : Entry) : Type 0 where
  pub same_id : e'.id ≡ e.id
  pub same_time : e'.time ≡ e.time
  pub same_content : e'.content ≡ e.content
  pub same_name : e'.name ≡ e.name
  pub same_bozo : e'.bozo ≡ e.bozo
  pub same_mode : e'.mode ≡ e.mode
  pub same_size : is_dir e.mode ≡ false → e'.last_child ≡ e.last_child

pub record IsGrown (fs fs' : Fs) : Type 0 where
  pub longer : fs.len ≤ fs'.len
  pub same_done : fs'.done ≡ fs.done
  pub lists_kept : (p : FilePath) (i : ℕ) → fs.lists p ≡ some i → fs'.lists p ≡ some i
  pub files_kept : (i : ℕ) → i < fs.len → IsSame (fs.files i) (fs'.files i)

IsSame-refl : (e : Entry) → IsSame e e
IsSame-refl e = record {
  same_id = refl;
  same_time = refl;
  same_content = refl;
  same_name = refl;
  same_bozo = refl;
  same_mode = refl;
  same_size = λ _. refl;
}

IsSame-trans : {e f g : Entry} → IsSame e f → IsSame f g → IsSame e g
IsSame-trans s t = record {
  same_id = t.same_id ∙ s.same_id;
  same_time = t.same_time ∙ s.same_time;
  same_content = t.same_content ∙ s.same_content;
  same_name = t.same_name ∙ s.same_name;
  same_bozo = t.same_bozo ∙ s.same_bozo;
  same_mode = t.same_mode ∙ s.same_mode;
  same_size = λ d. t.same_size (ap is_dir s.same_mode ∙ d) ∙ s.same_size d;
}

pub IsGrown-refl : (fs : Fs) → IsGrown fs fs
IsGrown-refl fs = record {
  longer = omega arith;
  same_done = refl;
  lists_kept = λ p i e. e;
  files_kept = λ i h. IsSame-refl (fs.files i);
}

pub IsGrown-trans : {fs gs hs : Fs} → IsGrown fs gs → IsGrown gs hs → IsGrown fs hs
IsGrown-trans {fs} {gs} {hs} a b = record {
  longer = omega (arith, a.longer, b.longer);
  same_done = b.same_done ∙ a.same_done;
  lists_kept = λ p i e. b.lists_kept p i (a.lists_kept p i e);
  files_kept = λ i h. IsSame-trans (a.files_kept i h) (b.files_kept i (omega (arith, a.longer, h)));
}

module _ (fs : Fs) (parent : ℕ) (f : Entry) (fits : fs.len < 2 ^ 32) (within : parent < fs.len)
    (pdir : is_dir (fs.files parent).mode ≡ true) where
  put_size :
      (i : ℕ)
      → i < fs.len
      → is_dir (fs.files i).mode ≡ false
      → ((put fs parent f).0.files i).last_child ≡ (fs.files i).last_child
  put_size i h d = elim (ℕ_discrete parent i) [
    | yes e ↦ absurd (cc (ap (λ x. is_dir (fs.files x).mode) e, pdir, d))
    | no n ↦ ground (arith, Put.put_last_child fs parent f fits within i h)
  ]

  put-IsSame : (i : ℕ) → i < fs.len → IsSame (fs.files i) ((put fs parent f).0.files i)
  unfolding put
  put-IsSame i h = record {
    same_id = ground arith;
    same_time = ground arith;
    same_content = ground arith;
    same_name = Put.put_name fs parent f fits within i h;
    same_bozo = ground arith;
    same_mode = Put.put_mode fs parent f fits within i h;
    same_size = put_size i h;
  }

  pub put-IsGrown : fs.lists f.name ≡ none → IsGrown fs (put fs parent f).0
  put-IsGrown absent = record {
    longer = omega (arith, Put.put_len fs parent f);
    same_done = Put.put_done fs parent f;
    lists_kept = λ p i e. ground (arith, Put.put_lists fs parent f fits p, e, absent);
    files_kept = put-IsSame;
  }
