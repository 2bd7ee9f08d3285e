-- ===== src/Archive/Roundtrip.antt =====
-- An archive that is put out for objects is read as these objects.
use ndmpd.Common.{
  ℕ, ◌+◌, ◌*◌, ◌≡◌, inl, inr, refl, sym, ap, subst₂, ◌∙◌, List, [], ◌∷◌, ◌++◌, Option, none, some,
  arith, ltb, length, All, Bool-cases,
}
use ndmpd.Base64.{done}
use ndmpd.Archive.Writer.{Kind, directory, fifo, symlink, regular}
use ndmpd.Archive.Objects.{Object, Progress, is_member, put_objects, followed}
use ndmpd.Archive.Reader.{start, tar_getdir}
use ndmpd.Archive.Variables.{Vars, Action, restore_file}
use ndmpd.Archive.Views.{HasPlainNames, read_attr}
use ndmpd.Archive.Steps.{Reads, stop, Reads-rounds}
use ndmpd.Archive.LongNames.{Holds}
use ndmpd.Archive.Kinds.{action, links_after, actions, IsRead, directory-IsRead, symlink-IsRead}
use ndmpd.Archive.Links.{fifo-IsRead, file-IsRead, new_link-IsRead, known_link-IsRead}
use ndmpd.Archive.Kept.{IsKind, IsObject, content_of}

followed_both :
    (b c : List ℕ) (q r : Progress) (o : Option (List ℕ × Progress))
    → (next : Progress → Option (List ℕ × Progress)) → o ≡ some (b, q)
    → next q ≡ some (c, r)
    → followed o next ≡ some (b ++ c, r)
unfolding followed
followed_both b c q r o next e f =
    ap (λ (x : Option (List ℕ × Progress)). followed x next) e ∙ (rw (f, followed) refl)

module _ (getpwuid getgrgid : ℕ → Option (List ℕ)) (plain : HasPlainNames getpwuid getgrgid)
    (max_path acl_room image : ℕ) (fill : ℕ → ℕ) (junk : List ℕ) where
  abbrev IsReadHere : Progress → Object → Action → List ℕ → Type 0
  IsReadHere p o act links =
      IsRead getpwuid getgrgid plain max_path acl_room image fill junk p o act links

  -- a regular file, by its links
  regular-IsRead :
      (p : Progress) (o : Object)
      → IsObject max_path acl_room image o
      → o.attr.kind ≡ regular
      → IsKind regular o
      → IsReadHere p o
          (action getpwuid getgrgid regular p.links o)
          (links_after getpwuid getgrgid regular p.links o)
  unfolding action links_after
  regular-IsRead p o h e (n, (c, given, size)) =
      let a = read_attr getpwuid getgrgid o.attr o.attr.st_size in
      elim (Bool-cases (ltb 1 o.attr.st_nlink)) [
        | inl many ↦ elim (Bool-cases (is_member o.attr.st_ino p.links)) [
          | inl known ↦
              rw (many, known)
                (known_link-IsRead getpwuid getgrgid plain max_path acl_room image fill junk p o h e
                  n many known)
          | inr new ↦
              let act : action getpwuid getgrgid regular p.links o
                  ≡ restore_file o.path a c (some o.attr.st_ino) =
                rw (many, new)
                  (ap
                    (λ (d : Option (List ℕ)).
                      restore_file o.path a (content_of d) (some o.attr.st_ino))
                    given) in
              let links : links_after getpwuid getgrgid regular p.links o
                  ≡ o.attr.st_ino ∷ p.links =
                rw (many, new) refl in
              subst₂ (IsReadHere p o) (sym act) (sym links) (
                new_link-IsRead getpwuid getgrgid plain max_path acl_room image fill junk p o c h e
                  given size many new)
        ]
        | inr single ↦
            let act : action getpwuid getgrgid regular p.links o ≡ restore_file o.path a c none =
              rw single
                (ap (λ (d : Option (List ℕ)). restore_file o.path a (content_of d) none) given) in
            let links : links_after getpwuid getgrgid regular p.links o ≡ p.links =
              rw single refl in
            subst₂ (IsReadHere p o) (sym act) (sym links) (
              file-IsRead getpwuid getgrgid plain max_path acl_room image fill junk p o c h e given
                size single)
      ]

  kind-IsRead :
      (k : Kind) (p : Progress) (o : Object)
      → IsObject max_path acl_room image o
      → o.attr.kind ≡ k
      → IsKind k o
      → IsReadHere p o
          (action getpwuid getgrgid k p.links o)
          (links_after getpwuid getgrgid k p.links o)
  unfolding links_after
  kind-IsRead directory p o h e f =
      directory-IsRead getpwuid getgrgid plain max_path acl_room image fill junk p o h e
  kind-IsRead fifo p o h e f =
      fifo-IsRead getpwuid getgrgid plain max_path acl_room image fill junk p o h e f
  kind-IsRead symlink p o h e f =
      symlink-IsRead getpwuid getgrgid plain max_path acl_room image fill junk p o h e f
  kind-IsRead regular p o h e f = regular-IsRead p o h e f

  -- The archive of some objects, and that it is read as their actions
  abbrev AreRead : Progress → List Object → Type 0
  AreRead p os =
      (bytes : List ℕ) × (p' : Progress) × (put_objects getpwuid getgrgid max_path image fill junk p
          os
        ≡ some (bytes, p'))
      × ((v : Vars)
          → Holds v [] []
          → v.links ≡ p.links
          → Reads max_path acl_room [] v bytes (actions getpwuid getgrgid p.links os))

  objects-AreRead :
      (os : List Object) (p : Progress) → All (IsObject max_path acl_room image) os → AreRead p os
  unfolding put_objects actions
  objects-AreRead [] p hs = ([], p, refl, λ (v : Vars) h e. stop h.one_volume refl refl)
  objects-AreRead (o ∷ os) p (h, hs) =
      let (bytes, p', put, links, reads) = kind-IsRead o.attr.kind p o h refl h.kind_fits in
      let (more, p'', puts, rest) = objects-AreRead os p' hs in
      (
        bytes ++ more,
        p'',
        followed_both bytes more p' p'' _
            (λ (q : Progress). put_objects getpwuid getgrgid max_path image fill junk q os) put
            puts,
        λ (v : Vars) holds e.
            reads v more []
              (actions getpwuid getgrgid (links_after getpwuid getgrgid o.attr.kind p.links o) os)
              holds e (λ (v1 : Vars) h1 e1. rw (sym links) (rest v1 h1 (e1 ∙ sym links))),
      )

  -- For objects that a backup can keep, what is put out for them, one after the other, is read as the
  -- action of each, in order, with its path, its link and its data; a file with several links is restored
  -- once and linked again afterwards. Such an object has an absolute path and a link target without NUL
  -- that the arrays of names hold; a size below 2^31, in one section, that for a file is that of its
  -- data; mode, time and inode that fit their fields, a file's inode not 0; an access list that fits its
  -- room; and, if it is a symbolic link, a target and no other link, if a pipe, no data and no other
  -- link. Names of users and groups hold no NUL. The attributes are those that the records keep: names
  -- cut at 31 bytes, and for nobody an owner or a group without a name or above 0o7777777.
  pub archive_roundtrip :
      (os : List Object)
      → All (IsObject max_path acl_room image) os
      → (bytes : List ℕ) × (p : Progress) × (put_objects getpwuid getgrgid max_path image fill junk
            (record { file_count = 0; links = [] })
            os
          ≡ some (bytes, p))
        × (tar_getdir max_path acl_room bytes ≡ some (done (actions getpwuid getgrgid [] os)))
  unfolding tar_getdir
  archive_roundtrip os hs =
      let (bytes, p, put, reads) = objects-AreRead os (record { file_count = 0; links = [] }) hs in
      (
        bytes,
        p,
        put,
        Reads-rounds max_path acl_room [] start bytes (actions getpwuid getgrgid [] os)
            (2 * length bytes + 2)
            (reads start
              (record {
                holds_name = refl;
                name_end = refl;
                holds_link = refl;
                link_end = refl;
                no_hugename = refl;
                no_huge_size = refl;
                one_volume = refl;
              })
              refl)
            (omega arith) (omega arith),
      )
