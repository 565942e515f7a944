-- ===== src/Mcp/Citations/Citing.antt =====
-- One citation and the index: `Scan::cite` and `Scan::note_file` of crates/ktsense-mcp/src/citations.rs.
use ktsense.Prelude.{
  ◌≤◌, ◌≡◌, ◌⊎◌, refl, ap, ◌∙◌, true, false, Bool-cases, inl, inr, List, [], ◌∷◌, ◌++◌, arith, ◌==◌,
  Bytes, bytes_eq, bytes_eq_iff, length, length-append, All, All-append, All-mono,
}
use ktsense.Std.Distinct.{Distinct, Distinct-append}
use ktsense.Mcp.Citations.{
  max_citations, Citation, Scan, is_source_path, knows_file, note_file, same_citation,
  contains_citation, push_citation, cite,
}

abbrev pub IsSourcePath : Bytes → Type 0
IsSourcePath path = is_source_path path ≡ true

-- The files are source paths and differ, the citations differ, their files are listed, there are no more
-- of them than the cap, and some were left out only if there are as many as that.
pub record IsIndex (scan : Scan) : Type 0 where
  pub files_source : All IsSourcePath scan.files
  pub files_distinct : Distinct bytes_eq scan.files
  pub citations_listed : All (λ c. knows_file c.path scan.files ≡ true) scan.citations
  pub citations_distinct : Distinct same_citation scan.citations
  pub within_cap : length scan.citations ≤ max_citations
  pub omitted_full : (scan.omitted ≡ 0) ⊎ (length scan.citations ≡ max_citations)

pub knows_file-append :
    (path file : Bytes) (files : List Bytes)
    → knows_file path files ≡ true
    → knows_file path (files ++ (file ∷ [])) ≡ true
unfolding knows_file
knows_file-append path file [] h = cc
knows_file-append path file (known ∷ files) h = ground (arith, knows_file-append path file files)

pub knows_file-last :
    (path : Bytes) (files : List Bytes) → knows_file path (files ++ (path ∷ [])) ≡ true
unfolding knows_file
knows_file-last path [] = ground (arith, (bytes_eq_iff path path).1 refl)
knows_file-last path (known ∷ files) = ground (arith, knows_file-last path files)

pub knows_file-differs :
    (path : Bytes) (files : List Bytes)
    → knows_file path files ≡ false
    → All (λ f. bytes_eq f path ≡ false) files
unfolding knows_file
knows_file-differs path [] h = tt
knows_file-differs path (known ∷ files) h =
    (ground arith, knows_file-differs path files (ground arith))

pub contains_citation-differs :
    (citation : Citation) (citations : List Citation)
    → contains_citation citation citations ≡ false
    → All (λ c. same_citation c citation ≡ false) citations
unfolding contains_citation
contains_citation-differs citation [] h = tt
contains_citation-differs citation (known ∷ citations) h =
    (ground arith, contains_citation-differs citation citations (ground arith))

pub note_file-IsIndex :
    (path : Bytes) (scan : Scan) → IsSourcePath path → IsIndex scan → IsIndex (note_file path scan)
unfolding note_file
note_file-IsIndex path scan p i = elim (Bool-cases (knows_file path scan.files)) [
  | inl known ↦ rw known i
  | inr new ↦ rw new (record {
    files_source = All-append IsSourcePath scan.files (path ∷ []) i.files_source (p, tt);
    files_distinct =
        Distinct-append bytes_eq scan.files path (knows_file-differs path scan.files new)
          i.files_distinct;
    citations_listed =
        All-mono (λ c. knows_file c.path scan.files ≡ true)
          (λ c. knows_file c.path (scan.files ++ (path ∷ [])) ≡ true)
          (λ c h. knows_file-append c.path path scan.files h) scan.citations i.citations_listed;
    citations_distinct = i.citations_distinct;
    within_cap = i.within_cap;
    omitted_full = i.omitted_full;
  })
]

pub note_file-knows :
    (path : Bytes) (scan : Scan) → knows_file path (note_file path scan).files ≡ true
unfolding note_file
note_file-knows path scan = ground (arith, knows_file-last path scan.files)

-- Noting a file leaves the citations and their count alone.
pub note_file-citations :
    (path : Bytes) (scan : Scan) → (note_file path scan).citations ≡ scan.citations
unfolding note_file
note_file-citations path scan = ground arith

pub note_file-omitted : (path : Bytes) (scan : Scan) → (note_file path scan).omitted ≡ scan.omitted
unfolding note_file
note_file-omitted path scan = ground arith

pub push_citation-IsIndex :
    (c : Citation) (scan : Scan)
    → IsIndex scan
    → contains_citation c scan.citations ≡ false
    → length scan.citations == max_citations ≡ false
    → knows_file c.path scan.files ≡ true
    → IsIndex (push_citation c scan)
push_citation-IsIndex c scan i new room known = record {
  files_source = i.files_source;
  files_distinct = i.files_distinct;
  citations_listed =
      All-append (λ c. knows_file c.path scan.files ≡ true) scan.citations (c ∷ [])
        i.citations_listed (known, tt);
  citations_distinct =
      Distinct-append same_citation scan.citations c
        (contains_citation-differs c scan.citations new) i.citations_distinct;
  within_cap = let fits = i.within_cap in ground (arith, length-append scan.citations (c ∷ []));
  omitted_full = elim i.omitted_full [
    | inl none_left ↦ inl none_left
    | inr full ↦ absurd (ground arith)
  ];
}

pub cite-IsIndex :
    (c : Citation) (scan : Scan) → IsSourcePath c.path → IsIndex scan → IsIndex (cite c scan)
unfolding cite
cite-IsIndex c scan p i = elim (Bool-cases (contains_citation c scan.citations)) [
  | inl known ↦ rw known i
  | inr new ↦ elim (Bool-cases (length scan.citations == max_citations)) [
    | inl full ↦
        rw (new, full)
          (record {
            files_source = i.files_source;
            files_distinct = i.files_distinct;
            citations_listed = i.citations_listed;
            citations_distinct = i.citations_distinct;
            within_cap = i.within_cap;
            omitted_full = inr (ground arith);
          })
    | inr room ↦
        let noted = note_file c.path scan in
        let same = note_file-citations c.path scan in
        rw (new, room)
          (push_citation-IsIndex c noted (note_file-IsIndex c.path scan p i)
            (ap (λ l. contains_citation c l) same ∙ new)
            (ap (λ l. length l == max_citations) same ∙ room) (note_file-knows c.path scan))
  ]
]
