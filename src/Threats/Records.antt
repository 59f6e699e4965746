-- ===== src/Threats/Records.antt =====
-- The rows that the packages under internal/threats exchange: manifest.go, osv.go, kev.go, matcher.go.
use hen_kai_pan.Prelude.{List, []}
use hen_kai_pan.Strings.{Text}

pub record Dependency : Type 0 where
  pub ecosystem : Text
  pub name : Text
  pub version : Text
  pub source_file : Text

-- `Dependency{}`
abbrev pub no_dependency : Dependency
no_dependency = record { ecosystem = []; name = []; version = []; source_file = [] }

pub record RangeEvent : Type 0 where
  pub introduced : Text
  pub fixed : Text

pub record AffectedRange : Type 0 where
  pub kind : Text
  pub events : List RangeEvent

pub record AffectedPackage : Type 0 where
  pub ecosystem : Text
  pub name : Text
  pub ranges : List AffectedRange

-- The CVSS score, the publication time and the raw bytes are not modelled: no code below reads them.
pub record Advisory : Type 0 where
  pub advisory_id : Text
  pub source : Text
  pub cve_id : Text
  pub aliases : List Text
  pub severity : Text
  pub affected_packages : List AffectedPackage

pub record QueryHit : Type 0 where
  pub dependency : Dependency
  pub advisory : Advisory

pub record FindingRef : Type 0 where
  pub id : Text
  pub pkg_name : Text
  pub pkg_version : Text
  pub cve_id : Text

-- `FindingRef{}`
abbrev pub no_finding : FindingRef
no_finding = record { id = []; pkg_name = []; pkg_version = []; cve_id = [] }
