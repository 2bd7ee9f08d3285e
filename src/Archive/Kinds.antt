-- ===== src/Archive/Kinds.antt =====
-- What is put out for an object is read as the action of the object, for each kind of object.
use ndmpd.Common.{
  ℕ, ◌^◌, ◌<◌, ◌≡◌, refl, sym, ap, ◌∙◌, ◌&&◌, not, List, [], ◌∷◌, ◌++◌, append_assoc, append-nil,
  Option, none, some, arith, ltb, if◌then◌else◌, length,
}
use ndmpd.Archive.{header_bytes}
use ndmpd.Archive.Writer.{Kind, directory, fifo, symlink, regular, last_header}
use ndmpd.Archive.Objects.{
  Object, Progress, is_member, output_kind, output_acl_header, tlm_output_file, tlm_output_dir,
  put_object,
}
use ndmpd.Archive.Variables.{
  Vars, Action, restore_file, create_hard_link, create_sym_link, create_directory, create_fifo,
}
use ndmpd.Archive.Views.{HasPlainNames, read_attr}
use ndmpd.Archive.Steps.{Reads}
use ndmpd.Archive.LongNames.{Holds, held}
use ndmpd.Archive.Files.{header_of}
use ndmpd.Archive.Groups.{acl-Reads, file_header-Reads}
use ndmpd.Archive.Own.{is_nul-ne, directory-Reads, symlink-Reads}
use ndmpd.Archive.Kept.{IsKind, IsObject, flag-directory, flag-symlink, content_of}

module _ (getpwuid getgrgid : ℕ → Option (List ℕ)) where
  -- what a restore does for an object, when the inodes in the list were restored before
  unfoldable pub action : Kind → List ℕ → Object → Action
  action directory links o =
      create_directory o.path (read_attr getpwuid getgrgid o.attr o.attr.st_size)
  action fifo links o = create_fifo o.path (read_attr getpwuid getgrgid o.attr o.attr.st_size)
  action symlink links o =
      create_sym_link o.path o.link (read_attr getpwuid getgrgid o.attr o.attr.st_size)
  action regular links o =
      let a = read_attr getpwuid getgrgid o.attr o.attr.st_size in
      let content = content_of o.content in
      if ltb 1 o.attr.st_nlink
      then if is_member o.attr.st_ino links
        then create_hard_link o.path o.attr.st_ino
        else restore_file o.path a content (some o.attr.st_ino)
      else restore_file o.path a content none

  -- the inodes that were restored after an object
  unfoldable pub links_after : Kind → List ℕ → Object → List ℕ
  links_after regular links o =
      if ltb 1 o.attr.st_nlink && not (is_member o.attr.st_ino links)
      then o.attr.st_ino ∷ links
      else links
  links_after other links o = links

  unfoldable pub actions : List ℕ → List Object → List Action
  unfolding action links_after
  actions links [] = []
  actions links (o ∷ os) = action o.attr.kind links o ∷ actions (links_after o.attr.kind links o) os

  module _ (plain : HasPlainNames getpwuid getgrgid) (max_path acl_room image : ℕ) (fill : ℕ → ℕ)
      (junk : List ℕ) where
    -- What is put out for an object, and that it is read as the action of the object
    abbrev pub IsRead : Progress → Object → Action → List ℕ → Type 0
    IsRead p o act links =
        (bytes : List ℕ) × (p' : Progress) × (put_object getpwuid getgrgid max_path image fill junk
            o.attr.kind p o
          ≡ some (bytes, p'))
        × (p'.links ≡ links)
        × ((v : Vars) (rest a' : List ℕ) (acts : List Action)
            → Holds v [] []
            → v.links ≡ p.links
            → ((v1 : Vars)
                → Holds v1 [] []
                → v1.links ≡ links
                → Reads max_path acl_room a' v1 rest acts)
            → Reads max_path acl_room a' v (bytes ++ rest) (act ∷ acts))

    -- the records before an object's own one are read
    head-Reads :
        (o : Object) (link : List ℕ) (p : Progress) (mem : List ℕ) (act : Action)
        → (v : Vars) (rest a' : List ℕ) (acts : List Action) → IsObject max_path acl_room image o
        → length link < max_path
        → length link < 2 ^ 31
        → Holds v [] []
        → ((v1 : Vars) (count : ℕ)
            → Holds v1 (held o.path) (held link)
            → v1.links ≡ v.links
            → Reads max_path acl_room a' v1
                (header_bytes (last_header getpwuid getgrgid max_path fill o.attr count o.path link)
                  ++ (mem ++ rest))
                (act ∷ acts))
        → Reads max_path acl_room a' v
            (((header_of getpwuid getgrgid max_path image fill p.file_count o.path link o.attr).0
                ++ mem)
              ++ rest)
            (act ∷ acts)
    head-Reads o link p mem act v rest a' acts h lt small holds k =
        let head =
          (header_of getpwuid getgrgid max_path image fill p.file_count o.path link o.attr).0 in
        rw (append_assoc head mem rest) (
          file_header-Reads getpwuid getgrgid plain max_path acl_room image fill o.attr v
            p.file_count o.path link (mem ++ rest) a' (act ∷ acts) h.stat_fits holds h.path_fits lt
            small k)

    -- and so is the access control list in front of them
    pub acl_head-Reads :
        (o : Object) (p : Progress) (mem : List ℕ) (act : Action)
        → (v : Vars) (rest a' : List ℕ) (acts : List Action) → IsObject max_path acl_room image o
        → Holds v [] []
        → ((v1 : Vars) (count : ℕ)
            → Holds v1 (held o.path) (held [])
            → v1.links ≡ v.links
            → Reads max_path acl_room a' v1
                (header_bytes (last_header getpwuid getgrgid max_path fill o.attr count o.path [])
                  ++ (mem ++ rest))
                (act ∷ acts))
        → Reads max_path acl_room a' v
            ((output_acl_header getpwuid getgrgid max_path image fill o.acl
                ++ ((header_of getpwuid getgrgid max_path image fill p.file_count o.path []
                      o.attr).0
                    ++ mem))
              ++ rest)
            (act ∷ acts)
    acl_head-Reads o p mem act v rest a' acts h holds k =
        let acl = output_acl_header getpwuid getgrgid max_path image fill o.acl in
        let head =
          (header_of getpwuid getgrgid max_path image fill p.file_count o.path [] o.attr).0 in
        let room : length {A = ℕ} [] < max_path = omega (arith, h.path_fits.fits) in
        rw (append_assoc acl (head ++ mem) rest) (
          acl-Reads getpwuid getgrgid plain max_path acl_room image fill v o.acl
            ((head ++ mem) ++ rest) a' (act ∷ acts) holds h.acl_fits
            (λ (v1 : Vars) h1 e1.
              head-Reads o [] p mem act v1 rest a' acts h room (omega arith) h1
                (λ (v2 : Vars) count h2 e2. k v2 count h2 (e2 ∙ e1))))

    pub directory-IsRead :
        (p : Progress) (o : Object)
        → IsObject max_path acl_room image o
        → o.attr.kind ≡ directory
        → IsRead p o (action directory p.links o) p.links
    unfolding put_object tlm_output_dir action
    directory-IsRead p o h e =
        let (head, count) =
          header_of getpwuid getgrgid max_path image fill p.file_count o.path [] o.attr in
        let acl = output_acl_header getpwuid getgrgid max_path image fill o.acl in
        (
          acl ++ (head ++ []),
          record p { file_count = count },
          ap (λ (k : Kind). put_object getpwuid getgrgid max_path image fill junk k p o) e
              ∙ ap (λ (r : List ℕ). some (acl ++ r, record p { file_count = count }))
                  (sym (append-nil head)),
          refl,
          λ (v : Vars) (rest a' : List ℕ) (acts : List Action) holds same k.
              acl_head-Reads o p [] _ v rest a' acts h holds (λ (v1 : Vars) count' h1 e1.
                directory-Reads getpwuid getgrgid plain max_path acl_room fill o.attr h.stat_fits
                  h.size_fits o.path [] h.path_fits count' v1 rest a' acts h1
                  (flag-directory o.attr [] e) (λ (v2 : Vars) h2 e2. k v2 h2 (e2 ∙ (e1 ∙ same)))),
        )

    pub symlink-IsRead :
        (p : Progress) (o : Object)
        → IsObject max_path acl_room image o
        → o.attr.kind ≡ symlink
        → IsKind symlink o
        → IsRead p o (action symlink p.links o) p.links
    unfolding put_object tlm_output_file output_kind action
    symlink-IsRead p o h e (one, n) =
        let (head, count) =
          header_of getpwuid getgrgid max_path image fill p.file_count o.path o.link o.attr in
        (
          head ++ [],
          record p { file_count = count },
          ap (λ (k : Kind). put_object getpwuid getgrgid max_path image fill junk k p o) e
              ∙ (ap (λ (k : Kind). output_kind getpwuid getgrgid max_path image fill k p o junk) e
                  ∙ ap (λ (r : List ℕ). some (r, record p { file_count = count }))
                      (sym (append-nil head))),
          refl,
          λ (v : Vars) (rest a' : List ℕ) (acts : List Action) holds same k.
              head-Reads o o.link p [] _ v rest a' acts h h.link_fits h.link_small holds
                (λ (v1 : Vars) count' h1 e1.
                  symlink-Reads getpwuid getgrgid plain max_path acl_room fill o.attr h.stat_fits
                    h.size_fits o.path o.link h.path_fits count' v1 rest a' acts h1
                    (flag-symlink o.attr o.link e one (is_nul-ne o.link n)) h.link_plain n
                    (λ (v2 : Vars) h2 e2. k v2 h2 (e2 ∙ (e1 ∙ same)))),
        )
