-- ===== src/Archive/Links.antt =====
-- What is put out for a pipe and for a file, with one link or with several, is read as its action.
use ndmpd.Common.{
  ℕ, ◌≤◌, ◌≡◌, ◌≢◌, ◌⊎◌, inl, inr, refl, sym, ap, subst, ◌∙◌, Bool, true, false, ◌&&◌, List, [],
  ◌∷◌, ◌++◌, append-nil, Option, none, some, arith, ltb, if◌then◌else◌, length,
}
use ndmpd.Archive.Writer.{Kind, fifo, regular, output_mem}
use ndmpd.Archive.Objects.{
  Object, Progress, is_member, output_kind, opened_as, output_acl_header, output_opened,
  tlm_output_file, put_object,
}
use ndmpd.Archive.Variables.{Vars, Action, restore_file, create_hard_link}
use ndmpd.Archive.Views.{HasPlainNames, read_attr}
use ndmpd.Archive.Files.{output_mem-none, header_of, linked, opened_whole, opened_known}
use ndmpd.Archive.Own.{fifo-Reads, file-Reads, new_link-Reads, known_link-Reads}
use ndmpd.Archive.Kept.{IsKind, IsObject, flag-fifo, flag-regular}
use ndmpd.Archive.Kinds.{action, IsRead, acl_head-Reads}

module _ (getpwuid getgrgid : ℕ → Option (List ℕ)) (plain : HasPlainNames getpwuid getgrgid)
    (max_path acl_room image : ℕ) (fill : ℕ → ℕ) (junk : List ℕ) where
  abbrev is_known : Progress → Object → Bool
  is_known p o = ltb 1 o.attr.st_nlink && is_member o.attr.st_ino p.links

  put_kind :
      (p : Progress) (o : Object)
      → (o.attr.kind ≡ fifo) ⊎ (o.attr.kind ≡ regular)
      → put_object getpwuid getgrgid max_path image fill junk o.attr.kind p o ≡ (
          if is_known p o
          then output_opened getpwuid getgrgid max_path image fill p o true [] junk
          else opened_as o.content
              (λ (d : List ℕ). output_opened getpwuid getgrgid max_path image fill p o false d junk)
              p)
  unfolding put_object tlm_output_file output_kind
  put_kind p o (inl e) =
      ap (λ (k : Kind). put_object getpwuid getgrgid max_path image fill junk k p o) e
      ∙ ap (λ (k : Kind). output_kind getpwuid getgrgid max_path image fill k p o junk) e
  put_kind p o (inr e) =
      ap (λ (k : Kind). put_object getpwuid getgrgid max_path image fill junk k p o) e
      ∙ ap (λ (k : Kind). output_kind getpwuid getgrgid max_path image fill k p o junk) e

  -- what is put out for an object whose data is read
  put_whole :
      (p : Progress) (o : Object) (c : List ℕ)
      → IsObject max_path acl_room image o
      → (o.attr.kind ≡ fifo) ⊎ (o.attr.kind ≡ regular)
      → o.content ≡ some c
      → o.attr.st_size ≡ length c
      → is_known p o ≡ false
      → (let (head, count) =
            header_of getpwuid getgrgid max_path image fill p.file_count o.path [] o.attr in
          put_object getpwuid getgrgid max_path image fill junk o.attr.kind p o
          ≡ some (
            output_acl_header getpwuid getgrgid max_path image fill o.acl
                ++ (head ++ output_mem fill c),
            linked getpwuid getgrgid max_path image fill p o count false,
          ))
  unfolding opened_as
  put_whole p o c h which given size new =
      let output =
        λ (d : List ℕ). output_opened getpwuid getgrgid max_path image fill p o false d junk in
      let known = output_opened getpwuid getgrgid max_path image fill p o true [] junk in
      put_kind p o which
      ∙ (ap (λ (b : Bool). if b then known else opened_as o.content output p) new
          ∙ (ap (λ (d : Option (List ℕ)). opened_as d output p) given
              ∙ opened_whole getpwuid getgrgid max_path image fill p o c junk size
                  (subst (λ (n : ℕ). n ≤ image) size h.one_section)))

  pub fifo-IsRead :
      (p : Progress) (o : Object)
      → IsObject max_path acl_room image o
      → o.attr.kind ≡ fifo
      → IsKind fifo o
      → IsRead getpwuid getgrgid plain max_path acl_room image fill junk p o
          (action getpwuid getgrgid fifo p.links o)
          p.links
  unfolding action
  fifo-IsRead p o h e (one, given, size) =
      let (head, count) =
        header_of getpwuid getgrgid max_path image fill p.file_count o.path [] o.attr in
      let acl = output_acl_header getpwuid getgrgid max_path image fill o.acl in
      let p' = linked getpwuid getgrgid max_path image fill p o count false in
      let single : ltb 1 o.attr.st_nlink ≡ false = ground (arith, one) in
      let unknown : is_known p o ≡ false = rw single refl in
      let unlinked : p'.links ≡ p.links = rw single refl in
      (
        acl ++ (head ++ []),
        p',
        put_whole p o [] h (inl e) given size unknown
            ∙ ap (λ (r : List ℕ). some (acl ++ (head ++ r), p')) (output_mem-none fill),
        unlinked,
        λ (v : Vars) (rest a' : List ℕ) (acts : List Action) holds same k.
            acl_head-Reads getpwuid getgrgid plain max_path acl_room image fill junk o p [] _ v rest
              a' acts h holds
              (λ (v1 : Vars) count' h1 e1.
                fifo-Reads getpwuid getgrgid plain max_path acl_room fill o.attr h.stat_fits
                  h.size_fits o.path [] h.path_fits count' v1 rest a' acts h1
                  (flag-fifo o.attr [] e) (λ (v2 : Vars) h2 e2. k v2 h2 (e2 ∙ (e1 ∙ same)))),
      )

  -- a file with one link
  pub file-IsRead :
      (p : Progress) (o : Object) (c : List ℕ)
      → IsObject max_path acl_room image o
      → o.attr.kind ≡ regular
      → o.content ≡ some c
      → o.attr.st_size ≡ length c
      → ltb 1 o.attr.st_nlink ≡ false
      → IsRead getpwuid getgrgid plain max_path acl_room image fill junk p o
          (restore_file o.path (read_attr getpwuid getgrgid o.attr o.attr.st_size) c none)
          p.links
  file-IsRead p o c h e given size single =
      let (head, count) =
        header_of getpwuid getgrgid max_path image fill p.file_count o.path [] o.attr in
      let acl = output_acl_header getpwuid getgrgid max_path image fill o.acl in
      let p' = linked getpwuid getgrgid max_path image fill p o count false in
      let unknown : is_known p o ≡ false = rw single refl in
      let unlinked : p'.links ≡ p.links = rw single refl in
      let flag = flag-regular o.attr e in
      (
        acl ++ (head ++ output_mem fill c),
        p',
        put_whole p o c h (inr e) given size unknown,
        unlinked,
        λ (v : Vars) (rest a' : List ℕ) (acts : List Action) holds same k.
            acl_head-Reads getpwuid getgrgid plain max_path acl_room image fill junk o p
              (output_mem fill c) _ v rest a' acts h holds
              (λ (v1 : Vars) count' h1 e1.
                file-Reads getpwuid getgrgid plain max_path acl_room fill o.attr h.stat_fits
                  h.size_fits o.path [] h.path_fits count' v1 c rest a' acts h1
                  (flag ∙ (rw single refl)) size (λ (v2 : Vars) h2 e2. k v2 h2 (e2 ∙ (e1 ∙ same)))),
      )

  -- the first link to a file
  pub new_link-IsRead :
      (p : Progress) (o : Object) (c : List ℕ)
      → IsObject max_path acl_room image o
      → o.attr.kind ≡ regular
      → o.content ≡ some c
      → o.attr.st_size ≡ length c
      → ltb 1 o.attr.st_nlink ≡ true
      → is_member o.attr.st_ino p.links ≡ false
      → IsRead getpwuid getgrgid plain max_path acl_room image fill junk p o
          (restore_file o.path
            (read_attr getpwuid getgrgid o.attr o.attr.st_size)
            c
            (some o.attr.st_ino))
          (o.attr.st_ino ∷ p.links)
  new_link-IsRead p o c h e given size many new =
      let (head, count) =
        header_of getpwuid getgrgid max_path image fill p.file_count o.path [] o.attr in
      let acl = output_acl_header getpwuid getgrgid max_path image fill o.acl in
      let p' = linked getpwuid getgrgid max_path image fill p o count false in
      let unknown : is_known p o ≡ false = rw (many, new) refl in
      let added : p'.links ≡ o.attr.st_ino ∷ p.links = rw many refl in
      let flag = flag-regular o.attr e in
      (
        acl ++ (head ++ output_mem fill c),
        p',
        put_whole p o c h (inr e) given size unknown,
        added,
        λ (v : Vars) (rest a' : List ℕ) (acts : List Action) holds same k.
            acl_head-Reads getpwuid getgrgid plain max_path acl_room image fill junk o p
              (output_mem fill c) _ v rest a' acts h holds
              (λ (v1 : Vars) count' h1 e1.
                let links = e1 ∙ same in
                new_link-Reads getpwuid getgrgid plain max_path acl_room fill o.attr h.stat_fits
                  h.size_fits o.path [] h.path_fits count' v1 c rest a' acts h1
                  (flag ∙ (rw many refl)) size (ap (is_member o.attr.st_ino) links ∙ new)
                  (λ (v2 : Vars) h2 e2.
                    k v2 h2 (e2 ∙ ap (λ (l : List ℕ). o.attr.st_ino ∷ l) links))),
      )

  -- another link to it
  pub known_link-IsRead :
      (p : Progress) (o : Object)
      → IsObject max_path acl_room image o
      → o.attr.kind ≡ regular
      → o.attr.st_ino ≢ 0
      → ltb 1 o.attr.st_nlink ≡ true
      → is_member o.attr.st_ino p.links ≡ true
      → IsRead getpwuid getgrgid plain max_path acl_room image fill junk p o
          (create_hard_link o.path o.attr.st_ino)
          p.links
  unfolding opened_as
  known_link-IsRead p o h e n many known =
      let (head, count) =
        header_of getpwuid getgrgid max_path image fill p.file_count o.path [] o.attr in
      let acl = output_acl_header getpwuid getgrgid max_path image fill o.acl in
      let p' = linked getpwuid getgrgid max_path image fill p o count true in
      let output =
        λ (d : List ℕ). output_opened getpwuid getgrgid max_path image fill p o false d junk in
      let again = output_opened getpwuid getgrgid max_path image fill p o true [] junk in
      let is_again : is_known p o ≡ true = rw (many, known) refl in
      let unlinked : p'.links ≡ p.links = rw many refl in
      let flag = flag-regular o.attr e in
      (
        acl ++ (head ++ []),
        p',
        put_kind p o (inr e)
            ∙ (ap (λ (b : Bool). if b then again else opened_as o.content output p) is_again
                ∙ (opened_known getpwuid getgrgid max_path image fill p o junk h.one_section
                    ∙ ap (λ (r : List ℕ). some (acl ++ r, p')) (sym (append-nil head)))),
        unlinked,
        λ (v : Vars) (rest a' : List ℕ) (acts : List Action) holds same k.
            acl_head-Reads getpwuid getgrgid plain max_path acl_room image fill junk o p [] _ v rest
              a' acts h holds
              (λ (v1 : Vars) count' h1 e1.
                known_link-Reads getpwuid getgrgid plain max_path acl_room fill o.attr h.stat_fits
                  h.size_fits o.path [] h.path_fits count' v1 rest a' acts h1
                  (flag ∙ (rw many refl)) n (ap (is_member o.attr.st_ino) (e1 ∙ same) ∙ known)
                  (λ (v2 : Vars) h2 e2. k v2 h2 (e2 ∙ (e1 ∙ same)))),
      )
