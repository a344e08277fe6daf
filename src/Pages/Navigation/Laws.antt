-- ===== src/Pages/Navigation/Laws.antt =====
-- The start page and the head of a page under a provider.
