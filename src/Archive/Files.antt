-- ===== src/Archive/Files.antt =====
-- tlm/tlm_backup_reader.c: `tlm_output_file` on a file that does not need sections.
use ndmpd.Common.{
  ℕ, suc, ◌+◌, ◌-◌, ◌≤◌, ◌≡◌, ◌≢◌, refl, sym, ap, subst, ◌∙◌, Bool, true, false, ◌&&◌, not, List,
  [], ◌∷◌, ◌++◌, append-nil, Option, some, arith, ltb, ◌==◌, if◌then◌else◌, length, take, drop,
  take_all,
}
use ndmpd.Archive.Writer.{Stat, output_mem, stale, output_file_header}
use ndmpd.Archive.Objects.{
  Object, Progress, output_acl_header, output_sections, output_opened, before, with_links,
}

pub output_mem-none : (fill : ℕ → ℕ) → output_mem fill [] ≡ []
unfolding output_mem stale
output_mem-none fill = refl

before-end : (s : List ℕ) (count : ℕ) → before s (some ([], count)) ≡ some (s, count)
unfolding before
before-end s count = ap (λ (r : List ℕ). some (r, count)) (append-nil s)

-- the ends of the two cases
with_links-end :
    (start head links : List ℕ) (count : ℕ)
    → with_links (start ++ []) links (before head (some ([], count)))
      ≡ some (start ++ head, record { file_count = count; links = links })
unfolding with_links before
with_links-end start head links count = rw (append-nil head, append-nil start) refl

with_links-whole :
    (start bytes links : List ℕ) (count : ℕ)
    → with_links (start ++ []) links (before [] (some (bytes, count)))
      ≡ some (start ++ bytes, record { file_count = count; links = links })
unfolding with_links before
with_links-whole start bytes links count = rw (append-nil start) refl

module _ (getpwuid getgrgid : ℕ → Option (List ℕ)) (max_path image : ℕ) (fill : ℕ → ℕ) where
  sections_end :
      (f count : ℕ) (path : List ℕ) (attr : Stat) (section : ℕ) (content : List ℕ)
      → output_sections getpwuid getgrgid max_path image fill
          (suc f)
          count
          path
          attr
          section
          0
          content
        ≡ some ([], count)
  unfolding output_sections
  sections_end f count path attr section content = refl

  -- the records before a file's data, and the number that is counted on
  abbrev pub header_of : ℕ → (path link : List ℕ) → Stat → List ℕ × ℕ
  header_of count path link attr =
      output_file_header getpwuid getgrgid max_path fill count path link attr 0

  -- a section that holds what is left of the file
  last_section :
      (f count : ℕ) (path : List ℕ) (attr : Stat) (section : ℕ) (content : List ℕ)
      → length content ≢ 0
      → length content ≤ image
      → (let (head, count') =
            output_file_header getpwuid getgrgid max_path fill count path []
              (record attr { st_size = length content })
              section in
          output_sections getpwuid getgrgid max_path image fill
            (suc f)
            count
            path
            attr
            section
            (length content)
            content
          ≡ before (head ++ output_mem fill content) (
              output_sections getpwuid getgrgid max_path image fill f count' path attr
                (section + 1)
                0
                (drop (length content) content)))
  unfolding output_sections
  last_section f count path attr section content n le =
      let size : (if ltb (length content) image then length content else image) ≡ length content =
        ground (arith, le) in
      let got : take (length content) content ≡ content =
        take_all (length content) content (omega arith) in
      let left : length content - length content ≡ 0 = omega arith in
      let more : (length content == 0) ≡ false = ground (arith, n) in
      rw (size, got, left, more) refl

  one_section :
      (f count : ℕ) (path : List ℕ) (attr : Stat) (content : List ℕ)
      → length content ≢ 0
      → length content ≤ image
      → (let (head, count') = header_of count path [] (record attr { st_size = length content }) in
          output_sections getpwuid getgrgid max_path image fill
            (suc (suc f))
            count
            path
            attr
            0
            (length content)
            content
          ≡ some (head ++ output_mem fill content, count'))
  one_section f count path attr content n le =
      let (head, count') = header_of count path [] (record attr { st_size = length content }) in
      last_section (suc f) count path attr 0 content n le
      ∙ (ap (before (head ++ output_mem fill content))
            (sections_end f count' path attr (0 + 1) (drop (length content) content))
          ∙ before-end (head ++ output_mem fill content) count')

  -- the state behind an object
  abbrev pub linked : Progress → Object → ℕ → Bool → Progress
  linked p o count known = record {
    file_count = count;
    links = if ltb 1 o.attr.st_nlink && not known then o.attr.st_ino ∷ p.links else p.links;
  }

  not_huge : (n : ℕ) → n ≤ image → ltb image n ≡ false
  not_huge n le = ground arith

  whole_file :
      (count : ℕ) (path : List ℕ) (attr : Stat) (content : List ℕ)
      → attr.st_size ≡ length content
      → length content ≢ 0
      → length content ≤ image
      → (let (head, count') = header_of count path [] attr in
          output_sections getpwuid getgrgid max_path image fill
            (attr.st_size + 1)
            count
            path
            attr
            0
            attr.st_size
            content
          ≡ some (head ++ output_mem fill content, count'))
  whole_file count path attr content e n le = subst at_size (sym e) fits
    where
      at_size : ℕ → Type 0
      at_size m =
          let (head, count') = header_of count path [] (record attr { st_size = m }) in
          output_sections getpwuid getgrgid max_path image fill (m + 1) count path attr 0 m content
          ≡ some (head ++ output_mem fill content, count')

      fits : at_size (length content)
      fits =
          let fuel : length content + 1 ≡ suc (suc (length content - 1)) = omega (arith, n) in
          ap
            (λ (f : ℕ).
              output_sections getpwuid getgrgid max_path image fill f count path attr 0
                (length content) content)
            fuel
          ∙ one_section (length content - 1) count path attr content n le

  -- The records of a file that is read whole
  pub opened_whole :
      (p : Progress) (o : Object) (content junk : List ℕ)
      → o.attr.st_size ≡ length content
      → length content ≤ image
      → (let (head, count) = header_of p.file_count o.path [] o.attr in
          output_opened getpwuid getgrgid max_path image fill p o false content junk
          ≡ some (
            output_acl_header getpwuid getgrgid max_path image fill o.acl
                ++ (head ++ output_mem fill content),
            linked p o count false,
          ))
  unfolding output_opened
  opened_whole p o [] junk e le =
      let (head, count) = header_of p.file_count o.path [] o.attr in
      let acl = output_acl_header getpwuid getgrgid max_path image fill o.acl in
      let small = not_huge o.attr.st_size (omega (arith, e)) in
      let none_left : (o.attr.st_size == 0) ≡ true = ground (arith, e) in
      let sections : output_sections getpwuid getgrgid max_path image fill (o.attr.st_size + 1)
            count o.path o.attr 0 o.attr.st_size []
          ≡ some ([], count) =
        ap
          (λ (m : ℕ).
            output_sections getpwuid getgrgid max_path image fill (m + 1) count o.path o.attr 0 m
              [])
          e
        ∙ sections_end 0 count o.path o.attr 0 [] in
      rw (small, none_left, sections)
        (with_links-end acl head (linked p o count false).links count
          ∙ ap (λ (r : List ℕ). some (acl ++ r, linked p o count false))
              (sym (append-nil head) ∙ ap (λ (r : List ℕ). head ++ r) (sym (output_mem-none fill))))
  opened_whole p o (c ∷ s) junk e le =
      let (head, count) = header_of p.file_count o.path [] o.attr in
      let acl = output_acl_header getpwuid getgrgid max_path image fill o.acl in
      let small = not_huge o.attr.st_size (omega (arith, e, le)) in
      let some_left : (o.attr.st_size == 0) ≡ false = ground (arith, e) in
      let sections = whole_file p.file_count o.path o.attr (c ∷ s) e (omega arith) le in
      rw (small, some_left, sections)
        (with_links-whole acl (head ++ output_mem fill (c ∷ s)) (linked p o count false).links
          count)

  -- The records of another link to a file that was put out
  pub opened_known :
      (p : Progress) (o : Object) (junk : List ℕ)
      → o.attr.st_size ≤ image
      → (let (head, count) = header_of p.file_count o.path [] o.attr in
          output_opened getpwuid getgrgid max_path image fill p o true [] junk
          ≡ some (
            output_acl_header getpwuid getgrgid max_path image fill o.acl ++ head,
            linked p o count true,
          ))
  unfolding output_opened
  opened_known p o junk le =
      let (head, count) = header_of p.file_count o.path [] o.attr in
      let acl = output_acl_header getpwuid getgrgid max_path image fill o.acl in
      rw (not_huge o.attr.st_size le, sections_end 0 count o.path o.attr 0 [])
        (with_links-end acl head (linked p o count true).links count)
