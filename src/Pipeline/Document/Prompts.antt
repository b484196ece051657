-- ===== src/Pipeline/Document/Prompts.antt =====
-- crates/murmur-core/src/pipeline/document.rs: what the two passes of a build say to the model.
use sitewalk.Base.{Option, none, some, ◌++◌, if◌then◌else◌}
use sitewalk.Base.Text.{Text, codes, text_eq}

unfoldable pub price_system : Text → Text
price_system memory_block =
    codes "You price items from a field-work session for a tradesperson's estimate/in"
    ++ (codes "voice. Put a price on an item ONLY when this specific operator's own prici"
        ++ (codes "ng history tells you what they charge for it. You have no other source of "
            ++ (codes "prices: you do not know this trade's going rate, this region's rates, or w"
                ++ (codes
                      "hat these materials cost, and a plausible number is worse than no number —"
                    ++ (codes
                          " it is a commitment the operator never made, on a document their client ma"
                        ++ (codes
                              "y sign. Leave everything else unpriced; they will fill it in themselves in"
                            ++ (codes
                                  " seconds. Omitting an item is always correct. You may price only items fro"
                                ++ (codes "m the given list, by their exact item_id."
                                    ++ (memory_block)))))))))

unfoldable pub compose_system : Text → Text
compose_system document_label =
    codes "You write the prose of a "
    ++ (document_label
        ++ (codes " for a small trade operator, from one recorded site walk. Everything you w"
            ++ (codes "rite must come from what was actually said on that walk. Never invent a qu"
                ++ (codes
                      "antity, a price, a name, a date, an access detail or a condition — a docum"
                    ++ (codes
                          "ent that is thin where the walk was thin is correct; one that reads well b"
                        ++ (codes
                              "ecause you filled the gaps is the single worst thing this product can prod"
                            ++ (codes
                                  "uce. Write in the operator's own trade language, not in marketing language"
                                ++ (codes
                                    ", and never mention the recording, the transcript, or yourself."))))))))

abbrev nothing_to_add : Text
nothing_to_add =
    codes " If the line's own title already says everything you would write, OMIT tha"
    ++ (codes "t line entirely — a second line that restates the first is padding, and a "
        ++ (codes "document that pads is one a reader stops trusting. Never restate the title"
            ++ (codes " in other words. Write only where you are ADDING something the title does "
                ++ (codes "not say."))))

abbrev stays_put : Text
stays_put =
    codes " Every condition, qualifier or classification you write on a line must be "
    ++ (codes "one the operator said ABOUT THAT LINE. If they said it about a different i"
        ++ (codes "tem, it belongs on that item and nowhere else. If you cannot tell which it"
            ++ (codes "em it was said about, leave it out — a phrase on the wrong line is worse t"
                ++ (codes
                    "han no phrase at all, because the reader has no way to know it moved."))))

abbrev no_money : Text
no_money =
    codes " NEVER write a price, a rate, or any dollar figure. The amount has its own"
    ++ (codes " column beside this text; a figure here either repeats it or contradicts i"
        ++ (codes "t. A work order carries no money at all."))

abbrev no_crew : Text
no_crew =
    codes " NEVER name the person doing the work — that belongs on a work order, not "
    ++ (codes "on this document.")

abbrev inclusion_brief : Text
inclusion_brief =
    codes "For each line, write only what a client needs in order to judge the number"
    ++ (codes " beside it: what the line covers and what is included in it (delivered? ha"
        ++ (codes "uled away? how many coats? what area?). A short phrase, not a sentence, an"
            ++ (codes "d only where it is not already obvious from the title."
                ++ (no_money ++ (no_crew)))))

abbrev directive_brief : Text
directive_brief =
    codes "This is a WORK ORDER: the crew reads it, standing at the site, to do the j"
    ++ (codes "ob without calling anyone. For each line write ONLY what the title does no"
        ++ (codes "t already tell them — the order to work in, the technique, the thing to wa"
            ++ (codes "tch out for, the spec to match. One short imperative sentence, in trade la"
                ++ (codes
                      "nguage. Where the operator named a person for a line, set `assignee` to th"
                    ++ (codes
                          "at name exactly as spoken (NOT in the text) — a line nobody was named for "
                        ++ (codes "gets no assignee." ++ (no_money)))))))

abbrev observation_brief : Text
observation_brief =
    codes "For each line, write what was actually OBSERVED — where it is, how bad, ho"
    ++ (codes "w much, what condition. One or two short phrases. This is a record that ma"
        ++ (codes "y be read months from now by someone who was not there (a tenant disputing"
            ++ (codes " a deduction, a buyer, an adjuster), so specifics beat adjectives."
                ++ (no_money ++ (no_crew)))))

with_rules : Text → Text
with_rules brief = brief ++ (stays_put ++ nothing_to_add)

-- What the second line under an item should say, by the reader that the document is for.
unfoldable pub line_brief : Text → Option Text
unfolding with_rules
line_brief line_detail =
    if text_eq line_detail (codes "inclusion")
    then some (with_rules inclusion_brief)
    else (if text_eq line_detail (codes "directive")
        then some (with_rules directive_brief)
        else (if text_eq line_detail (codes "observation")
            then some (with_rules observation_brief)
            else none))
