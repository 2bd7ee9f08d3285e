-- ===== src/Archive/Own.antt =====
-- The own record of an object, as it is put out and as `tar_getdir` reads it, for each kind of object.
use ndmpd.Common.{
  ℕ, ◌+◌, ◌^◌, ◌<◌, ◌≡◌, ◌≢◌, inl, inr, refl, sym, subst, ◌∙◌, true, false, ◌||◌, List, [], ◌∷◌,
  ◌++◌, Option, none, some, arith, ◌==◌, length, Bool-cases,
}
use ndmpd.Common.Bytes.{codes}
use ndmpd.Base64.{done}
use ndmpd.Archive.{
  Header, header_bytes, format_0o, size_of, is_nul, lf_normal, lf_link, lf_symlink, lf_dir, lf_fifo,
  lf_multivol, lf_volhdr, lf_humongus,
}
use ndmpd.Archive.Fields.{IsPlain}
use ndmpd.Archive.Writer.{
  Stat, common, link_flag, ino_text, last_header, output_mem, counted_name, is_long, one_if,
}
use ndmpd.Archive.Objects.{is_member}
use ndmpd.Archive.Reader.{on_flag}
use ndmpd.Archive.Variables.{
  Attr, Vars, View, Action, restore_file, create_hard_link, create_sym_link, create_directory,
  create_fifo, clear_names, or_else, c_text,
}
use ndmpd.Archive.Views.{HasPlainNames, IsStat, common-Carries, read_attr, at_switch, Sees}
use ndmpd.Archive.Steps.{Reads}
use ndmpd.Archive.LongNames.{Holds, held, size_of-small, at_switch-Holds, switch-Reads}
use ndmpd.Archive.Switch.{
  name_found, link_found, after_file, after_file-Holds, on_normal_lem, on_directory, on_fifo,
  on_sym_link, on_known_link, on_plain_file, on_new_link,
}
use ndmpd.Archive.Paths.{IsPath, in_record, short_lem, rooted-ne, clear_names-Holds}
use ndmpd.Archive.Groups.{counted_name-IsMade}

pub is_nul-ne : (s : List ℕ) → s ≢ [] → is_nul s ≡ false
is_nul-ne [] n = absurd (n refl)
is_nul-ne (c ∷ s) n = refl

-- a flag that the loop looks at only in the switch
abbrev pub IsSwitched : ℕ → Type 0
IsSwitched flag =
    ((flag == lf_multivol || flag == lf_volhdr) ≡ false) × ((flag == lf_humongus) ≡ false)

module _ (getpwuid getgrgid : ℕ → Option (List ℕ)) (plain : HasPlainNames getpwuid getgrgid)
    (max_path acl_room : ℕ) (fill : ℕ → ℕ) (attr : Stat) (fits : IsStat attr)
    (small : attr.st_size < 2 ^ 31) (path link : List ℕ) (p : IsPath max_path path)
    (count : ℕ) where
  abbrev own : Header
  own = last_header getpwuid getgrgid max_path fill attr count path link

  abbrev given : Attr
  given = read_attr getpwuid getgrgid attr attr.st_size

  -- what the switch gets, with the names that are held
  abbrev switched : Vars → Vars
  switched v = at_switch v given (link_flag attr link)

  own-Reads :
      (v v1 : Vars) (mem rest a' : List ℕ) (now later : List Action)
      → v.multi_volume ≡ false
      → IsSwitched (link_flag attr link)
      → ((w : View)
          → Sees w own
          → on_flag max_path acl_room (switched v) w (mem ++ rest) ≡ done (v1, rest, now))
      → Reads max_path acl_room a' v1 rest later
      → Reads max_path acl_room a' v (header_bytes own ++ (mem ++ rest)) (now ++ later)
  unfolding last_header common
  own-Reads v v1 mem rest a' now later one (e, f) step more =
      switch-Reads max_path acl_room v v1 own given mem rest a' now later
        (common-Carries getpwuid getgrgid max_path fill attr attr.st_size (link_flag attr link) _ _
          _ plain fits (omega (arith, small)))
        one e f step more

  made_name : List ℕ
  made_name = counted_name count (codes ".fil")

  own-name : own.th_name ≡ in_record made_name path
  unfolding last_header common made_name
  own-name = refl

  own-flag : own.th_linkflag ≡ link_flag attr link
  unfolding last_header common
  own-flag = refl

  -- the name, from what is held or from the record
  own-named :
      (v : Vars) (w : View)
      → Holds v (held path) (held link)
      → Sees w own
      → or_else (c_text v.longname) w.name ≡ done path
  own-named v w h sees =
      name_found max_path acl_room v w own path (held link) made_name p h sees own-name

  -- what follows when no link is new
  abbrev Goes : Vars → (rest a' : List ℕ) → List Action → Type 0
  Goes v rest a' acts =
      (v1 : Vars) → Holds v1 [] [] → v1.links ≡ v.links → Reads max_path acl_room a' v1 rest acts

  switched-Holds :
      (v : Vars) → Holds v (held path) (held link) → Holds (switched v) (held path) (held link)
  switched-Holds v h = at_switch-Holds v given (link_flag attr link) (held path) (held link) h

  cleared : (v : Vars) → Holds v (held path) (held link) → Holds (clear_names (switched v)) [] []
  cleared v h = clear_names-Holds (switched v) (held path) (held link) (switched-Holds v h)

  pub directory-Reads :
      (v : Vars) (rest a' : List ℕ) (acts : List Action)
      → Holds v (held path) (held link)
      → link_flag attr link ≡ lf_dir
      → Goes v rest a' acts
      → Reads max_path acl_room a' v (header_bytes own ++ rest) (create_directory path given ∷ acts)
  directory-Reads v rest a' acts h flag k =
      own-Reads v (clear_names (switched v)) [] rest a' (create_directory path given ∷ []) acts
        h.one_volume (subst IsSwitched (sym flag) (refl, refl))
        (λ (w : View) sees.
          on_directory max_path acl_room (switched v) w rest path
            (sees.sees_flag ∙ (own-flag ∙ flag)) (own-named v w h sees))
        (k (clear_names (switched v)) (cleared v h) refl)

  pub fifo-Reads :
      (v : Vars) (rest a' : List ℕ) (acts : List Action)
      → Holds v (held path) (held link)
      → link_flag attr link ≡ lf_fifo
      → Goes v rest a' acts
      → Reads max_path acl_room a' v (header_bytes own ++ rest) (create_fifo path given ∷ acts)
  fifo-Reads v rest a' acts h flag k =
      own-Reads v (clear_names (switched v)) [] rest a' (create_fifo path given ∷ []) acts
        h.one_volume (subst IsSwitched (sym flag) (refl, refl))
        (λ (w : View) sees.
          on_fifo max_path acl_room (switched v) w rest path (sees.sees_flag ∙ (own-flag ∙ flag))
            (own-named v w h sees))
        (k (clear_names (switched v)) (cleared v h) refl)

  made_link : List ℕ
  made_link = counted_name (count + one_if (is_long path)) (codes ".slk")

  own-linkname : own.th_linkname ≡ in_record made_link link
  unfolding last_header common made_link
  own-linkname = refl

  pub symlink-Reads :
      (v : Vars) (rest a' : List ℕ) (acts : List Action)
      → Holds v (held path) (held link)
      → link_flag attr link ≡ lf_symlink
      → IsPlain link
      → link ≢ []
      → Goes v rest a' acts
      → Reads max_path acl_room a' v
          (header_bytes own ++ rest)
          (create_sym_link path link given ∷ acts)
  symlink-Reads v rest a' acts h flag linkp n k =
      own-Reads v (clear_names (switched v)) [] rest a' (create_sym_link path link given ∷ []) acts
        h.one_volume (subst IsSwitched (sym flag) (refl, refl))
        (λ (w : View) sees.
          on_sym_link max_path acl_room (switched v) w rest path link
            (sees.sees_flag ∙ (own-flag ∙ flag)) (own-named v w h sees)
            (link_found max_path acl_room v w own (held path) link made_link linkp n h sees
              own-linkname))
        (k (clear_names (switched v)) (cleared v h) refl)

  own-size :
      (content : List ℕ) → attr.st_size ≡ length content → size_of given.size ≡ length content
  unfolding read_attr
  own-size content e = size_of-small attr.st_size small ∙ e

  pub file-Reads :
      (v : Vars) (content rest a' : List ℕ) (acts : List Action)
      → Holds v (held path) (held link)
      → link_flag attr link ≡ lf_normal
      → attr.st_size ≡ length content
      → Goes v rest a' acts
      → Reads max_path acl_room a' v
          (header_bytes own ++ (output_mem fill content ++ rest))
          (restore_file path given content none ∷ acts)
  file-Reads v content rest a' acts h flag e k =
      let v1 = after_file max_path acl_room (switched v) v.links in
      let archive = output_mem fill content ++ rest in
      own-Reads v v1 (output_mem fill content) rest a' (restore_file path given content none ∷ [])
        acts h.one_volume (subst IsSwitched (sym flag) (refl, refl))
        (λ (w : View) sees.
          on_plain_file max_path acl_room (switched v) w archive
            (sees.sees_flag ∙ (own-flag ∙ flag))
          ∙ on_normal_lem max_path acl_room (switched v) w own fill path (held link) made_name
              content rest none p (switched-Holds v h) sees own-name (own-size content e))
        (k v1
          (after_file-Holds max_path acl_room (switched v) v.links (held path) (held link)
            (switched-Holds v h))
          refl)

  -- the texts of a record of a hard link
  own-ino : link_flag attr link ≡ lf_link → own.th_hlink_ino ≡ format_0o 11 attr.st_ino
  unfolding last_header common ino_text
  own-ino flag = rw flag refl

  own-inode : (w : View) → Sees w own → link_flag attr link ≡ lf_link → w.inode ≡ done attr.st_ino
  own-inode w sees flag = sees.sees_inode attr.st_ino (own-ino flag) fits.ino_fits

  some_name : (w : View) → Sees w own → (t : List ℕ) × (w.name ≡ done t) × (is_nul t ≡ false)
  some_name w sees = elim (Bool-cases (is_long path)) [
    | inl long ↦
        let made =
          counted_name-IsMade count (codes ".fil") (refl, (refl, (refl, (refl, tt)))) refl in
        let e : own.th_name ≡ made_name = own-name ∙ (rw long refl) in
        (
          own.th_name,
          sees.sees_name (subst IsPlain (sym e) (unfold made_name in made.made_plain)) (
              subst (λ (t : List ℕ). length t < 100) (sym e) (unfold made_name in made.made_short)),
          subst (λ (t : List ℕ). is_nul t ≡ false) (sym e) (unfold made_name in made.made_some),
        )
    | inr short ↦
        let (lt, whole) = short_lem path short in
        let e : own.th_name ≡ path = own-name ∙ (rw short whole) in
        (
          own.th_name,
          sees.sees_name (subst IsPlain (sym e) p.is_plain)
              (subst (λ (t : List ℕ). length t < 100) (sym e) lt),
          subst (λ (t : List ℕ). is_nul t ≡ false) (sym e)
              (is_nul-ne path (rooted-ne path p.rooted)),
        )
  ]

  pub new_link-Reads :
      (v : Vars) (content rest a' : List ℕ) (acts : List Action)
      → Holds v (held path) (held link)
      → link_flag attr link ≡ lf_link
      → attr.st_size ≡ length content
      → is_member attr.st_ino v.links ≡ false
      → ((v1 : Vars)
          → Holds v1 [] []
          → v1.links ≡ attr.st_ino ∷ v.links
          → Reads max_path acl_room a' v1 rest acts)
      → Reads max_path acl_room a' v
          (header_bytes own ++ (output_mem fill content ++ rest))
          (restore_file path given content (some attr.st_ino) ∷ acts)
  new_link-Reads v content rest a' acts h flag e m k =
      let links = attr.st_ino ∷ v.links in
      let v1 = after_file max_path acl_room (switched v) links in
      let archive = output_mem fill content ++ rest in
      own-Reads v v1 (output_mem fill content) rest a'
        (restore_file path given content (some attr.st_ino) ∷ []) acts h.one_volume
        (subst IsSwitched (sym flag) (refl, refl))
        (λ (w : View) sees.
          let (t, name, some_t) = some_name w sees in
          on_new_link max_path acl_room (switched v) w archive t attr.st_ino
            (sees.sees_flag ∙ (own-flag ∙ flag)) (own-inode w sees flag) m name some_t
          ∙ on_normal_lem max_path acl_room (switched v) w own fill path (held link) made_name
              content rest (some attr.st_ino) p (switched-Holds v h) sees own-name
              (own-size content e))
        (k v1
          (after_file-Holds max_path acl_room (switched v) links (held path) (held link)
            (switched-Holds v h))
          refl)

  pub known_link-Reads :
      (v : Vars) (rest a' : List ℕ) (acts : List Action)
      → Holds v (held path) (held link)
      → link_flag attr link ≡ lf_link
      → attr.st_ino ≢ 0
      → is_member attr.st_ino v.links ≡ true
      → Goes v rest a' acts
      → Reads max_path acl_room a' v
          (header_bytes own ++ rest)
          (create_hard_link path attr.st_ino ∷ acts)
  known_link-Reads v rest a' acts h flag n m k =
      own-Reads v (clear_names (switched v)) [] rest a' (create_hard_link path attr.st_ino ∷ [])
        acts h.one_volume (subst IsSwitched (sym flag) (refl, refl))
        (λ (w : View) sees.
          on_known_link max_path acl_room (switched v) w rest path attr.st_ino
            (sees.sees_flag ∙ (own-flag ∙ flag)) (own-named v w h sees) (own-inode w sees flag) n m)
        (k (clear_names (switched v)) (cleared v h) refl)
