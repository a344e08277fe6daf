-- ===== src/Pages/Navigation/Tests.antt =====
-- The start page and the head of a page under a provider of the samples.
use microsvc.Prelude.{obj, end}
use microsvc.Web.{World}
use microsvc.Session.{mounted}
use microsvc.Session.Interleaved.{Shared, starting}
use microsvc.Samples.{Jar, cookies, accept, guest_page}

abbrev guest : World Jar
guest = guest_page (accept (obj end))

abbrev opened : Shared Jar
opened = record { session = mounted guest; busy = starting; refreshes = 0 }
