-- ===== src/Tests/Display.antt =====
-- The colours of a terminal after a run of the page.
use loci_terminal.Common.{true, some, [], false}
use loci_terminal.Theme.Mode.{Storage, open_page}
use loci_terminal.Theme.System.{begin_system, watch_system, change_system}
use loci_terminal.Terminal.Themed.{no_terminals}
use loci_terminal.Terminal.Themed.Shown.{Display, renders}

abbrev storage : Storage
storage = record { present = true; readable = true; writable = true; items = [] }

-- The page follows a system that begins dark and turns light while "a" is shown.
abbrev begun : Display
begun = record {
  page = open_page storage;
  system = watch_system (begin_system (some false));
  hook = no_terminals;
}

abbrev drawn : Display
drawn = renders (some []) (some "a") begun

abbrev turned : Display
turned = record drawn { system = change_system true drawn.system }
